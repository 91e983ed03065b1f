-- ===== src/Server/System/Promises.antt =====
-- The messages of one stream and the samples on their way, in every reachable state.
use vox_lattice.Base.{
  ℕ, ◌+◌, ◌*◌, ◌≤◌, ◌≡◌, refl, Bool, true, false, String, ok, List, [], ◌∷◌, ◌++◌, arith, length,
  length-append,
}
use mathlib.Core.Path.{subst}
use vox_lattice.Audio.Pcm.{Float32}
use vox_lattice.Server.Queue.{Queue}
use vox_lattice.Server.Metrics.{ServerMetrics}
use vox_lattice.Server.Session.{StreamSession, init}
use vox_lattice.Server.Service.{ServerMessage, enhanced_audio, stream_ended}
use vox_lattice.Server.System.{System, Reach, start}
use vox_lattice.Server.System.Flow.{Item, hop, flush, no_flush, malformed, Flow, Sent, Events-le}
use vox_lattice.Server.System.Invariant.{Live, Inv, view, items}
use vox_lattice.Server.System.Safety.{Reach-Inv, fresh}

-- The PCM of the messages, in their order.
abbrev pub pcm_sent : List ServerMessage → List ℕ
pcm_sent [] = []
pcm_sent (enhanced_audio _ _ pcm _ ∷ r) = pcm ++ pcm_sent r
pcm_sent (stream_ended _ _ _ ∷ r) = pcm_sent r

pcm_sent_lem :
    (base n a m b : ℕ) (ms : List ServerMessage)
    → Sent base n a ms m b
    → a * 2 + length (pcm_sent ms) ≡ b * 2
pcm_sent_lem base n a m b [] h = omega (arith, h.1)
pcm_sent_lem base n a m b (enhanced_audio q s p v ∷ r) h =
    omega (arith, length-append p (pcm_sent r), h.3, pcm_sent_lem base (n + 1) (a + v) m b r h.4)
pcm_sent_lem base n a m b (stream_ended i o f ∷ r) h = ground arith

length-pcm_sent_snoc :
    (ms : List ServerMessage) (i o : ℕ) (flushed : Bool)
    → length (pcm_sent (ms ++ stream_ended i o flushed ∷ [])) ≡ length (pcm_sent ms)
length-pcm_sent_snoc [] i o flushed = refl
length-pcm_sent_snoc (enhanced_audio _ _ p _ ∷ r) i o flushed = omega (
  arith,
  length-append p (pcm_sent r),
  length-append p (pcm_sent (r ++ stream_ended i o flushed ∷ [])),
  length-pcm_sent_snoc r i o flushed,
)
length-pcm_sent_snoc (stream_ended _ _ _ ∷ r) i o flushed = length-pcm_sent_snoc r i o flushed

-- The valid samples of the items.
abbrev pub item_samples : {S : Type 0} → List (Item S) → ℕ
item_samples [] = 0
item_samples (hop h ∷ r) = h.valid_samples + item_samples r
item_samples (_ ∷ r) = item_samples r

Flow-item_samples :
    {S : Type 0} (a b p : ℕ) (xs : List (Item S)) → Flow a xs b p → a + item_samples xs ≡ b
Flow-item_samples a b p [] h = omega (arith, h)
Flow-item_samples a b p (hop x ∷ r) h =
    omega (arith, Flow-item_samples (a + x.valid_samples) b p r h.2)
Flow-item_samples a b p (flush ∷ r) h = ground arith
Flow-item_samples a b p (no_flush ∷ r) h = ground arith
Flow-item_samples a b p (malformed ∷ r) h = absurd h

last_message :
    (base n a m b i o : ℕ) (flushed : Bool) (ms : List ServerMessage)
    → Sent base n a (ms ++ stream_ended i o flushed ∷ []) m b
    → (base + o ≡ b) × (flushed ≡ true → i ≡ o)
last_message base n a m b i o flushed [] h = (omega (arith, h.2, h.3), h.4)
last_message base n a m b i o flushed (enhanced_audio q s p v ∷ r) h =
    last_message base (n + 1) (a + v) m b i o flushed r h.4
last_message base n a m b i o flushed (stream_ended _ _ _ ∷ []) h = absurd (ground (arith, h.0))
last_message base n a m b i o flushed (stream_ended _ _ _ ∷ y ∷ r) h = absurd (ground (arith, h.0))

module _ (f : Float32) {C : Type 0} (max_chunk : ℕ) where
  open f use {Value}

  reached :
      (object_id base : ℕ) (name : String) (caches : C) (inputs outputs : ℕ)
      (session : StreamSession Value C) (metrics : ServerMetrics) (ready : Queue ℕ)
      (s : System Value C)
      → init object_id name base caches inputs outputs ≡ ok session
      → Reach f max_chunk (start session metrics ready) s
      → Inv (view s)
  reached object_id base name caches inputs outputs session metrics ready s e r =
      let (session', e', i, _) = fresh f max_chunk object_id base name caches inputs outputs in
      let same : session' ≡ session = cc in
      Reach-Inv f max_chunk (start session metrics ready) s r
        (subst (λ x. Inv (view (start x metrics ready))) same (i metrics ready))

  module _ (object_id base : ℕ) (name : String) (caches : C) (inputs outputs : ℕ)
      (session : StreamSession Value C) (metrics : ServerMetrics) (ready : Queue ℕ)
      (made : init object_id name base caches inputs outputs ≡ ok session) (s : System Value C)
      (reach : Reach f max_chunk (start session metrics ready) s) where
    i : Inv (view s)
    i = reached object_id base name caches inputs outputs session metrics ready s made reach

    -- In every reachable state of a stream, the audio messages sent are numbered 0, 1, 2 and
    -- so on, each starts at the sample where the one before ends, the first at the
    -- input_start_sample of the session, each has at least one sample and two bytes for each
    -- of its samples, no message follows StreamEnded, and the last sample sent is among those
    -- received.
    pub sent_in_order :
        (last : ℕ) × Sent s.stream.session.input_start_sample 0 s.stream.session.input_start_sample
          s.sent s.stream.session.output_sequence last
        × (last ≤ s.stream.session.input_start_sample + s.stream.session.input_samples)
    sent_in_order = (
      i.sent_end,
      i.sent,
      omega (
        arith,
        i.low,
        i.accounted,
        Events-le s.stream.session.input_start_sample i.sent_end i.queue_end
            s.stream.session.output_queue.items i.events,
      ),
    )

    -- In every reachable state whose last message is a StreamEnded, its output_samples is half
    -- the number of bytes of audio sent before it, and when it says flushed its input_samples
    -- equals its output_samples.
    pub stream_ended_counts :
        (ms : List ServerMessage) (input_samples output_samples : ℕ) (flushed : Bool)
        → s.sent ≡ ms ++ stream_ended input_samples output_samples flushed ∷ []
        → (length (pcm_sent ms) ≡ output_samples * 2)
          × (flushed ≡ true → input_samples ≡ output_samples)
    stream_ended_counts ms input_samples output_samples flushed e =
        let sent =
          subst
            (λ l.
              Sent s.stream.session.input_start_sample 0 s.stream.session.input_start_sample l
                s.stream.session.output_sequence i.sent_end)
            e i.sent in
        let (total, counts) =
          last_message s.stream.session.input_start_sample 0 s.stream.session.input_start_sample
            s.stream.session.output_sequence i.sent_end input_samples output_samples flushed ms
            sent in
        (
          omega (
            arith,
            total,
            length-pcm_sent_snoc ms input_samples output_samples flushed,
            pcm_sent_lem s.stream.session.input_start_sample 0 s.stream.session.input_start_sample
                s.stream.session.output_sequence i.sent_end
                (ms ++ stream_ended input_samples output_samples flushed ∷ []) sent,
          ),
          counts,
        )

    -- In every reachable state of a stream that is neither cancelled nor ended, the samples
    -- output, those on their way (pending hop, work in flight, input queue, work the reader
    -- still enqueues) and those in the rechunker add up to the samples received.
    pub no_sample_lost :
        s.stream.session.cancelled ≡ false
        → s.stream.session.ended ≡ false
        → s.stream.session.output_samples
            + item_samples (items (view s))
            + s.stream.session.rechunker.pending_samples
          ≡ s.stream.session.input_samples
    no_sample_lost c e =
        let l : Live (view s) = i.live c in
        omega (
          arith,
          l.rechunked,
          l.expected,
          Flow-item_samples (s.stream.session.input_start_sample + s.stream.session.output_samples)
              s.stream.session.rechunker.next_sample s.stream.session.rechunker.pending_samples
              (items (view s)) (l.flow e),
        )
