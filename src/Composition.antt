-- ===== src/Composition.antt =====
-- The worker of the plugin and one stream of the server together: transport.py, `_run_generation`, on
-- the messages that service.py, `Enhance`, sends.
use vox_lattice.Base.{
  ℕ, ◌+◌, ◌/◌, ◌≤◌, ◌≡◌, sym, ap, ◌∙◌, ok, String, Bool, List, [], ◌∷◌, map, ◌≢◌, length, arith,
}
use vox_lattice.Base.{>>=-eq-ok}
use vox_lattice.Protocol.{StartStream, StreamAccepted, start as start_of}
use vox_lattice.Server.Start.{text_value, queue_hops}
use vox_lattice.Server.Call.{
  EnhancementService, opened, gives, session_for, open_call, Opened, open_call-Opened,
}
use vox_lattice.Plugin.Transport.{AudioRequest}
use vox_lattice.Plugin.Transport.Requests.{start_message, call_metadata}
use vox_lattice.Plugin.Transport.Requests.Accepted.{start_message_start}
use mathlib.Core.Path.{subst}
use vox_lattice.Protocol.{accepted}
use vox_lattice.Audio.Pcm.{Float32}
use vox_lattice.Server.Queue.{Queue}
use vox_lattice.Server.Metrics.{ServerMetrics}
use vox_lattice.Server.Session.{StreamSession, init}
use vox_lattice.Server.Service.{ServerMessage, enhanced_audio, stream_ended}
use vox_lattice.Server.Start.{ModelInfo, capabilities}
use vox_lattice.Server.System.{System, Reach, start}
use vox_lattice.Server.System.Flow.{Sent}
use vox_lattice.Server.System.Origin.{base-Reach}
use vox_lattice.Server.System.Safety.{fresh}
use vox_lattice.Server.System.Promises.{sent_in_order}
use vox_lattice.Plugin.Transport.{TransportConfig}
use vox_lattice.Plugin.Transport.Responses.{
  expected_model_name, Ending, mismatch, Delivery, run_generation,
}
use vox_lattice.Plugin.Transport.Responses.Trace.{
  Contiguous, wire, deliveries, ending_of, capabilities_match, run_generation-Sent,
  run_generation-Contiguous,
}

gives-start : (s t : StartStream) → gives (start_of s) ≡ gives (start_of t) → s ≡ t
gives-start s t e = cc

-- Two bytes to a sample.
abbrev pub delivered_samples : List Delivery → ℕ
delivered_samples [] = 0
delivered_samples (d ∷ r) = length d.pcm / 2 + delivered_samples r

-- What the worker's call makes of the answer to its request and of the messages sent: exactly their audio
-- is delivered, the call never ends with a mismatch, and the deliveries are contiguous from the first
-- sample on, no more samples than were received.
abbrev pub Delivered :
    TransportConfig → Bool → Bool → ℕ → StreamAccepted → List ServerMessage → ℕ → Type 0
Delivered config stop failed first answer sent received =
    ((run_generation config stop failed first (accepted answer ∷ map wire sent)).0
      ≡ deliveries sent)
    × ((detail : String)
        → (run_generation config stop failed first (accepted answer ∷ map wire sent)).1
          ≢ mismatch detail)
    × Contiguous first (deliveries sent)
    × (delivered_samples (deliveries sent) ≤ received)

delivered_samples_lem :
    (base n a m b : ℕ) (ms : List ServerMessage)
    → Sent base n a ms m b
    → a + delivered_samples (deliveries ms) ≡ b
delivered_samples_lem base n a m b [] h = omega (arith, h.1)
delivered_samples_lem base n a m b (enhanced_audio q s p v ∷ r) h =
    omega (arith, h.3, delivered_samples_lem base (n + 1) (a + v) m b r h.4)
delivered_samples_lem base n a m b (stream_ended i o flushed ∷ []) h = omega (arith, h.2)
delivered_samples_lem base n a m b (stream_ended i o flushed ∷ y ∷ r) h =
    absurd (ground (arith, h.0))

-- The client never ends with a mismatch.
ending_of-returns :
    (at_end : Ending) (ms : List ServerMessage) (detail : String)
    → ((d : String) → at_end ≢ mismatch d)
    → ending_of at_end ms ≢ mismatch detail
ending_of-returns at_end [] detail h e = h detail e
ending_of-returns at_end (enhanced_audio _ _ _ _ ∷ r) detail h e =
    ending_of-returns at_end r detail h e
ending_of-returns at_end (stream_ended _ _ _ ∷ r) detail h e = ground (arith, e)

module _ (f : Float32) {C : Type 0} (max_chunk : ℕ) (object_id base : ℕ) (name : String)
    (caches : C) (inputs outputs : ℕ) (session : StreamSession f.Value C) (metrics : ServerMetrics)
    (ready : Queue ℕ) (made : init object_id name base caches inputs outputs ≡ ok session)
    (s : System f.Value C) (reach : Reach f max_chunk (start session metrics ready) s) where
  session_base : session.input_start_sample ≡ base
  session_base =
      let (session', e', _, b) = fresh f max_chunk object_id base name caches inputs outputs in
      let same : session' ≡ session = cc in ap (λ x. x.input_start_sample) (sym same) ∙ b

  pub sent_from_base :
      (last : ℕ) × Sent base 0 base s.sent s.stream.session.output_sequence last
      × (last ≤ base + s.stream.session.input_samples)
  sent_from_base =
      subst
        (λ b.
          (last : ℕ) × Sent b 0 b s.sent s.stream.session.output_sequence last
          × (last ≤ b + s.stream.session.input_samples))
        (base-Reach f max_chunk (start session metrics ready) s reach ∙ session_base)
        (sent_in_order f max_chunk object_id base name caches inputs outputs session metrics ready
          made s reach)

  -- For a client whose expected model is the server's, in every reachable state of a stream
  -- that began at the client's first sample, the worker's call delivers exactly the audio of
  -- the messages sent, in order, never ends with a protocol mismatch, and the deliveries are
  -- contiguous whole samples from the first sample on, no more samples than the server
  -- received.
  pub Reach-Delivered :
      (config : TransportConfig) (model : ModelInfo) (stop failed : Bool)
      → model.model_name ≡ expected_model_name
      → model.model_revision ≡ config.expected_model_revision
      → model.checkpoint_sha256 ≡ config.expected_model_sha256
      → Delivered config stop failed base
          (capabilities model max_chunk)
          s.sent
          s.stream.session.input_samples
  Reach-Delivered config model stop failed n r h =
      let (last, sent, bound) = sent_from_base in
      let (at_end, ran, no_mismatch) =
        run_generation-Sent config stop failed base _ last (capabilities model max_chunk) s.sent
          (capabilities_match config model max_chunk n r h) sent in
      let delivered = ap (λ x. x.0) ran in
      (
        delivered,
        (λ detail e.
            ending_of-returns at_end s.sent detail no_mismatch (ap (λ x. x.1) (sym ran) ∙ e)),
        subst (Contiguous base) delivered (
            run_generation-Contiguous config stop failed base
              (accepted (capabilities model max_chunk) ∷ map wire s.sent)),
        omega (arith, bound, delivered_samples_lem base 0 base _ last s.sent sent),
      )

module _ (f : Float32) {C : Type 0} (dec : Discrete String) (lower : String → String)
    (object_id : ℕ) (config : TransportConfig) (hex : String) (items : List (String × String))
    (first : AudioRequest) (service service' : EnhancementService C)
    (session : StreamSession f.Value C) (answer : StreamAccepted)
    (is_open : open_call dec lower object_id
        (map (λ e. (e.0, text_value e.1)) (call_metadata config))
        (gives (start_of (start_message hex items first)))
        service
      ≡ (service', opened session answer)) where
  -- When a call of the plugin, with its own metadata and first message, opens a stream at a
  -- server whose model is the one expected, then in every state that the stream reaches the
  -- worker's call delivers exactly the audio of the messages sent, in order, never ends with a
  -- protocol mismatch, and the deliveries are contiguous whole samples from the first sample
  -- of the call on, no more samples than the server received.
  pub open_call-Delivered :
      (ready : Queue ℕ) (s : System f.Value C) (stop failed : Bool)
      → Reach f service.max_audio_chunk_samples (start session service'.metrics ready) s
      → service.model.model_name ≡ expected_model_name
      → service.model.model_revision ≡ config.expected_model_revision
      → service.model.checkpoint_sha256 ≡ config.expected_model_sha256
      → Delivered config stop failed first.start_sample answer s.sent s.stream.session.input_samples
  unfolding session_for
  open_call-Delivered ready s stop failed reach n r h =
      let o : Opened dec lower object_id _ _ service service' session answer =
        open_call-Opened dec lower object_id
          (map (λ e. (e.0, text_value e.1)) (call_metadata config))
          (gives (start_of (start_message hex items first))) service service' session answer
          is_open in
      let (caches, _, made) = >>=-eq-ok service.initialize_stream _ o.made in
      let from : o.start_stream.input_start_sample ≡ first.start_sample =
        ap (λ x. x.input_start_sample)
          (sym (gives-start (start_message hex items first) o.start_stream o.is_first))
        ∙ start_message_start hex items first in
      let delivered =
        Reach-Delivered f service.max_audio_chunk_samples object_id
          o.start_stream.input_start_sample o.start_stream.stream_id caches
          (queue_hops service.max_pending_audio_ms_per_stream)
          (queue_hops service.max_output_audio_ms_per_stream) session service'.metrics ready made s
          reach config service.model stop failed n r h in
      subst (λ b. Delivered config stop failed b answer s.sent s.stream.session.input_samples) from
        (subst
          (λ a.
            Delivered config stop failed o.start_stream.input_start_sample a s.sent
              s.stream.session.input_samples)
          (sym o.answer) delivered)
