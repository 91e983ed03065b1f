-- ===== src/Plugin/Transport/Responses/Trace.antt =====
-- What `_run_generation` delivers, of any server and of this repository's.
use vox_lattice.Base.{
  ℕ, ◌+◌, ◌*◌, ◌<◌, ◌≡◌, refl, sym, String, eq_iff, Bool, true, Bool-cases, Option-cases, none,
  some, inl, inr, List, [], ◌∷◌, map, arith, length, ◌≢◌, not, ◌||◌,
}
use mathlib.Core.Path.{subst}
use vox_lattice.Protocol.{
  StreamAccepted, EnhancedAudio, ServerMessage, accepted, audio, ended, other,
}
use vox_lattice.Server.Service
use vox_lattice.Server.Service.{enhanced_audio, stream_ended}
use vox_lattice.Server.Start.{ModelInfo, capabilities}
use vox_lattice.Server.System.Flow.{Sent}
use vox_lattice.Plugin.Transport.{TransportConfig}
use vox_lattice.Plugin.Transport.Responses.{
  expected_model_name, accepted_matches, Ending, returns, mismatch, connection_lost, Delivery,
  audio_mismatch, receive_audio, run_generation,
}

-- Deliveries without gap or overlap, each of whole samples, one at least.
abbrev pub Contiguous : ℕ → List Delivery → Type 0
Contiguous a [] = Unit
Contiguous a (d ∷ r) =
    (d.start_sample ≡ a)
    × (0 < length d.pcm)
    × (n : ℕ) × (length d.pcm ≡ n * 2)
    × Contiguous (a + n) r

receive_audio_good :
    (n a : ℕ) (at_end : Ending) (x : EnhancedAudio) (ms : List ServerMessage)
    → audio_mismatch n a x ≡ none
    → (receive_audio n a at_end (audio x ∷ ms)).0
      ≡ record { start_sample = x.output_start_sample; pcm = x.pcm_s16le }
        ∷ (receive_audio (n + 1) (a + x.valid_samples) at_end ms).0
unfolding receive_audio
receive_audio_good n a at_end x ms e = ground arith

receive_audio_bad :
    (n a : ℕ) (at_end : Ending) (x : EnhancedAudio) (ms : List ServerMessage) (detail : String)
    → audio_mismatch n a x ≡ some detail
    → (receive_audio n a at_end (audio x ∷ ms)).0 ≡ []
unfolding receive_audio
receive_audio_bad n a at_end x ms detail e = ground arith

receive_audio-Contiguous :
    (n a : ℕ) (at_end : Ending) (ms : List ServerMessage)
    → Contiguous a (receive_audio n a at_end ms).0
unfolding receive_audio audio_mismatch
receive_audio-Contiguous n a at_end [] = tt
receive_audio-Contiguous n a at_end (audio x ∷ ms) = elim (Option-cases (audio_mismatch n a x)) [
  | inl good ↦ subst (Contiguous a) (sym (receive_audio_good n a at_end x ms good)) (
    ground arith,
    ground arith,
    x.valid_samples,
    ground arith,
    receive_audio-Contiguous (n + 1) (a + x.valid_samples) at_end ms,
  )
  | inr (detail, bad) ↦ subst (Contiguous a) (sym (receive_audio_bad n a at_end x ms detail bad)) tt
]
receive_audio-Contiguous n a at_end (ended _ ∷ ms) = tt
receive_audio-Contiguous n a at_end (accepted _ ∷ ms) = tt
receive_audio-Contiguous n a at_end (other ∷ ms) = tt

-- Whatever a server sends, the worker's call delivers only whole samples, one at least, each
-- delivery starting where the one before ended and the first at the first sample of the call.
pub run_generation-Contiguous :
    (config : TransportConfig) (stop failed : Bool) (first : ℕ) (ms : List ServerMessage)
    → Contiguous first (run_generation config stop failed first ms).0
unfolding run_generation
run_generation-Contiguous config stop failed first [] = tt
run_generation-Contiguous config stop failed first (accepted a ∷ ms) =
    elim (Bool-cases (accepted_matches config a)) [
      | inl good ↦ rw good (receive_audio-Contiguous 0 first _ ms)
      | inr bad ↦ rw bad tt
    ]
run_generation-Contiguous config stop failed first (audio _ ∷ ms) = tt
run_generation-Contiguous config stop failed first (ended _ ∷ ms) = tt
run_generation-Contiguous config stop failed first (other ∷ ms) = tt

-- A message of the server, on the wire.
abbrev pub wire : Service.ServerMessage → ServerMessage
wire (enhanced_audio sequence start pcm valid) = audio (record {
  output_sequence = sequence;
  output_start_sample = start;
  pcm_s16le = pcm;
  valid_samples = valid;
})
wire (stream_ended input output flushed) =
    ended (record { input_samples = input; output_samples = output; flushed = flushed })

-- The audio of the server's messages, as it is to be delivered.
abbrev pub deliveries : List Service.ServerMessage → List Delivery
deliveries [] = []
deliveries (enhanced_audio _ start pcm _ ∷ r) =
    record { start_sample = start; pcm = pcm } ∷ deliveries r
deliveries (stream_ended _ _ _ ∷ r) = deliveries r

-- How the client takes the end: it returns when the last message was sent.
abbrev pub ending_of : Ending → List Service.ServerMessage → Ending
ending_of at_end [] = at_end
ending_of at_end (enhanced_audio _ _ _ _ ∷ r) = ending_of at_end r
ending_of at_end (stream_ended _ _ _ ∷ r) = returns

receive_audio-Sent :
    (base n a m b : ℕ) (at_end : Ending) (ms : List Service.ServerMessage)
    → Sent base n a ms m b
    → receive_audio n a at_end (map wire ms) ≡ (deliveries ms, ending_of at_end ms)
unfolding receive_audio audio_mismatch
receive_audio-Sent base n a m b at_end [] h = refl
receive_audio-Sent base n a m b at_end (enhanced_audio q s p v ∷ ms) h =
    ground (arith, h.0, h.1, h.2, h.3, receive_audio-Sent base (n + 1) (a + v) m b at_end ms h.4)
receive_audio-Sent base n a m b at_end (stream_ended i o f ∷ ms) h = ground (arith, h.0)

-- A client that was built for the server's model takes its capabilities.
pub capabilities_match :
    (config : TransportConfig) (model : ModelInfo) (max_chunk : ℕ)
    → model.model_name ≡ expected_model_name
    → model.model_revision ≡ config.expected_model_revision
    → model.checkpoint_sha256 ≡ config.expected_model_sha256
    → accepted_matches config (capabilities model max_chunk) ≡ true
unfolding accepted_matches capabilities
capabilities_match config model max_chunk name revision sha = ground (
  arith,
  eq_iff model.model_name expected_model_name,
  eq_iff model.model_revision config.expected_model_revision,
  eq_iff model.checkpoint_sha256 config.expected_model_sha256,
)

pub run_generation-Sent :
    (config : TransportConfig) (stop failed : Bool) (first m b : ℕ) (a : StreamAccepted)
    (ms : List Service.ServerMessage)
    → accepted_matches config a ≡ true
    → Sent first 0 first ms m b
    → (at_end : Ending) × (run_generation config stop failed first (accepted a ∷ map wire ms)
        ≡ (deliveries ms, ending_of at_end ms))
      × ((detail : String) → at_end ≢ mismatch detail)
unfolding run_generation
run_generation-Sent config stop failed first m b a ms match_ h =
    elim (Bool-cases (failed || not stop)) [
      | inl lost ↦ (
        connection_lost,
        ground (arith, match_, lost, receive_audio-Sent first 0 first m b connection_lost ms h),
        λ detail e. cc,
      )
      | inr stopped ↦ (
        returns,
        ground (arith, match_, stopped, receive_audio-Sent first 0 first m b returns ms h),
        λ detail e. cc,
      )
    ]
