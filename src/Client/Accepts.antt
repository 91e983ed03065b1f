-- ===== src/Client/Accepts.antt =====
-- The client's checks on the messages of this repository's server.
use vox_lattice.Base.{
  ℕ, ◌+◌, ◌/◌, ◌%◌, ◌≡◌, refl, ap, ◌∙◌, String, Bool, true, Option, none, some, List, [], ◌∷◌, ◌++◌,
  append-nil, append_assoc, map, length, ok, arith,
}
use vox_lattice.Audio.Pcm.{Float32}
use vox_lattice.Protocol.{StreamAccepted, StreamEnded, accepted}
use vox_lattice.Server.Queue.{Queue}
use vox_lattice.Server.Metrics.{ServerMetrics}
use vox_lattice.Server.Session.{StreamSession, init}
use vox_lattice.Server.Service
use vox_lattice.Server.Service.{enhanced_audio, stream_ended}
use vox_lattice.Server.System.{System, Reach, start}
use vox_lattice.Server.System.Flow.{Sent}
use vox_lattice.Server.System.Promises.{pcm_sent, stream_ended_counts}
use vox_lattice.Plugin.Transport.Responses.Trace.{wire}
use vox_lattice.Composition.{sent_from_base}
use vox_lattice.Client.{Received, receive, check_end, exchange}

-- The last message of the audio and the end, on the wire.
abbrev last_of : Option StreamEnded → List Service.ServerMessage → Option StreamEnded
last_of o [] = o
last_of o (enhanced_audio _ _ _ _ ∷ r) = last_of o r
last_of o (stream_ended i n f ∷ r) =
    last_of (some (record { input_samples = i; output_samples = n; flushed = f })) r

receive-Sent :
    (base n a m b : ℕ) (r : Received) (ms : List Service.ServerMessage)
    → Sent base n a ms m b
    → r.expected_offset ≡ a
    → receive r (map wire ms)
      ≡ ok (record {
        output = r.output ++ pcm_sent ms;
        expected_offset = b;
        last = last_of r.last ms;
      })
unfolding receive
receive-Sent base n a m b r [] h e = ground (arith, h, e, append-nil r.output)
receive-Sent base n a m b r (enhanced_audio q s p v ∷ ms) h e = ground (
  arith,
  h.0,
  h.1,
  h.2,
  h.3,
  e,
  append_assoc r.output p (pcm_sent ms),
  receive-Sent base (n + 1) (a + v) m b
      (record r { output = r.output ++ p; expected_offset = r.expected_offset + v }) ms h.4
      (omega (arith, e)),
)
receive-Sent base n a m b r (stream_ended i o f ∷ []) h e =
    ground (arith, h, e, append-nil r.output)
receive-Sent base n a m b r (stream_ended i o f ∷ y ∷ ms) h e = absurd (ground (arith, h.0))

-- The last message is the one that ended the stream, and it has no audio than the audio before the last message.
last_message :
    (ms : List Service.ServerMessage) (o : Option StreamEnded) (i n : ℕ) (f : Bool)
    → (last_of o (ms ++ stream_ended i n f ∷ [])
        ≡ some (record { input_samples = i; output_samples = n; flushed = f }))
      × (pcm_sent (ms ++ stream_ended i n f ∷ []) ≡ pcm_sent ms)
last_message [] o i n f = (refl, refl)
last_message (enhanced_audio _ _ p _ ∷ r) o i n f =
    let (end_, same) = last_message r o i n f in (end_, ap (◌++◌ p) same)
last_message (stream_ended i' n' f' ∷ r) o i n f = last_message r _ i n f

check_end_ok :
    (pcm : List ℕ) (r : Received) (out : List ℕ) (n : ℕ)
    → r.output ≡ out
    → r.last ≡ some (record { input_samples = length pcm / 2; output_samples = n; flushed = true })
    → n ≡ length pcm / 2
    → length out ≡ length pcm
    → check_end pcm r ≡ ok out
unfolding check_end
check_end_ok pcm r out n same end_ counted size = ground (arith, same, end_, counted, size)

module _ (f : Float32) {C : Type 0} (max_chunk object_id : ℕ) (name : String) (caches : C)
    (inputs outputs : ℕ) (session : StreamSession f.Value C) (metrics : ServerMetrics)
    (ready : Queue ℕ) (made : init object_id name 0 caches inputs outputs ≡ ok session)
    (s : System f.Value C) (reach : Reach f max_chunk (start session metrics ready) s) where
  -- When a stream that began at sample 0 has ended with a flush that tells as many input
  -- samples as the client's audio of whole samples has, the client accepts the messages: its
  -- checks pass, its output is the audio sent, and it has as many bytes as the input.
  pub exchange_lem :
      (a : StreamAccepted) (pcm : List ℕ) (ms : List Service.ServerMessage) (output_samples : ℕ)
      → length pcm % 2 ≡ 0
      → s.sent ≡ ms ++ stream_ended (length pcm / 2) output_samples true ∷ []
      → (exchange pcm (accepted a ∷ map wire s.sent) ≡ ok (pcm_sent ms))
        × (length (pcm_sent ms) ≡ length pcm)
  unfolding exchange check_end receive
  exchange_lem a pcm ms output_samples even is_sent =
      let (last, sent, _) =
        sent_from_base f max_chunk object_id 0 name caches inputs outputs session metrics ready made
          s reach in
      let (bytes, all) =
        stream_ended_counts f max_chunk object_id 0 name caches inputs outputs session metrics ready
          made s reach ms (length pcm / 2) output_samples true is_sent in
      let received =
        receive-Sent 0 0 0 s.stream.session.output_sequence last
          (record { output = []; expected_offset = 0; last = none }) s.sent sent refl in
      let (end_, same) = last_message ms none (length pcm / 2) output_samples true in
      let total : length (pcm_sent ms) ≡ length pcm = omega (arith, bytes, all refl, even) in
      (
        rw received (
            check_end_ok pcm
              (record {
                output = pcm_sent s.sent;
                expected_offset = last;
                last = last_of none s.sent;
              })
              (pcm_sent ms) output_samples (ap pcm_sent is_sent ∙ same)
              (ap (last_of none) is_sent ∙ end_) (omega (arith, all refl)) total),
        total,
      )
