-- ===== src/Server/System/Steps/Handler.antt =====
-- The handler's steps keep the invariant: it sends an event, ends, or its client hangs up.
use vox_lattice.Base.{
  ℕ, ◌+◌, ◌≡◌, refl, inl, inr, Bool, true, false, some, List, [], ◌∷◌, ◌++◌, arith,
}
use mathlib.Core.Path.{subst}
use vox_lattice.Server.Session.{
  OutputEvent, output_audio, stream_completion, rpc_failure, StreamSession,
}
use vox_lattice.Server.Scheduler.{Stream}
use vox_lattice.Server.Scheduler.Effects.{List-cases}
use vox_lattice.Server.Service.{
  enhanced_audio, stream_ended, Reply, sends, ends_with, aborts, handle_event, finalize,
}
use vox_lattice.Server.Service.Effects.{finalize_lem}
use vox_lattice.Server.System.{System, after_reply}
use vox_lattice.Server.System.Flow.{Events, Events-le, Sent-append, Open-snoc}
use vox_lattice.Server.System.Invariant.{View, Inv, view, cancelled-Inv}

module _ {S : Type 0} where
  -- An event of audio is sent, under the next number.
  sent_audio-Inv :
      (v : View S) (start valid : ℕ) (pcm : List ℕ) (es : List OutputEvent)
      → Inv v
      → v.handling ≡ true
      → v.events ≡ output_audio start pcm valid ∷ es
      → Inv (record v {
        output_sequence = v.output_sequence + 1;
        events = es;
        sent = v.sent ++ enhanced_audio v.output_sequence start pcm valid ∷ [];
      })
  sent_audio-Inv v start valid pcm es i h q =
      let events : Events v.base i.sent_end (output_audio start pcm valid ∷ es) i.queue_end =
        subst (λ l. Events v.base i.sent_end l i.queue_end) q i.events in
      record {
        sent_end = i.sent_end + valid;
        queue_end = i.queue_end;
        sent =
            Sent-append v.base 0 v.base v.output_sequence i.sent_end (v.output_sequence + 1)
              (i.sent_end + valid) v.sent (enhanced_audio v.output_sequence start pcm valid ∷ [])
              (i.unfinished h) i.sent (refl, events.0, events.1, events.2, (refl, refl));
        unfinished = λ x. Open-snoc v.sent v.output_sequence start pcm valid (i.unfinished h);
        events = events.3;
        low = i.low;
        high = i.high;
        accounted = i.accounted;
        live = λ c. record {
          flow = (i.live c).flow;
          streaming = (i.live c).streaming;
          expected = (i.live c).expected;
          rechunked = (i.live c).rechunked;
          counted = (i.live c).counted;
          short = (i.live c).short;
        };
      }

  -- The completion is sent, as the last message.
  sent_end-Inv :
      (v : View S) (input output : ℕ) (flushed : Bool) (es : List OutputEvent)
      → Inv v
      → v.handling ≡ true
      → v.events ≡ stream_completion input output flushed ∷ es
      → Inv (record v {
        cancelled = true;
        handling = false;
        works = [];
        events = [];
        sent = v.sent ++ stream_ended input output flushed ∷ [];
      })
  sent_end-Inv v input output flushed es i h q =
      let events : Events v.base i.sent_end (stream_completion input output flushed ∷ es)
          i.queue_end =
        subst (λ l. Events v.base i.sent_end l i.queue_end) q i.events in
      record {
        sent_end = i.sent_end;
        queue_end = i.sent_end;
        sent =
            Sent-append v.base 0 v.base v.output_sequence i.sent_end v.output_sequence i.sent_end
              v.sent (stream_ended input output flushed ∷ []) (i.unfinished h) i.sent
              (refl, refl, refl, events.0, events.1);
        unfinished = λ x. absurd cc;
        events = refl;
        low = omega (arith, i.low, Events-le v.base i.sent_end i.queue_end v.events i.events);
        high = λ c. absurd cc;
        accounted = i.accounted;
        live = λ c. absurd cc;
      }

module _ {S C : Type 0} where
  -- The session without its first event.
  abbrev rest_of : List OutputEvent → StreamSession S C → StreamSession S C
  rest_of events s = record s { output_queue = record s.output_queue { items = events } }

  reply_of : OutputEvent → StreamSession S C → Reply
  reply_of (output_audio start pcm valid) s =
      sends (enhanced_audio s.output_sequence start pcm valid)
  reply_of (stream_completion input output flushed) s =
      ends_with (stream_ended input output flushed)
  reply_of (rpc_failure status detail) s = aborts status detail

  left_by : OutputEvent → StreamSession S C → StreamSession S C
  left_by (output_audio start pcm valid) s = record s { output_sequence = s.output_sequence + 1 }
  left_by (stream_completion input output flushed) s = s
  left_by (rpc_failure status detail) s = s

  handle_event_lem :
      (st st' : Stream S C) (reply : Reply)
      → handle_event st ≡ some (st', reply)
      → (e : OutputEvent) × (es : List OutputEvent) × (st.session.output_queue.items ≡ e ∷ es)
        × (reply ≡ reply_of e st.session)
        × (st'.session ≡ left_by e (rest_of es st.session))
  unfolding handle_event reply_of left_by
  handle_event_lem st st' reply ran = elim (List-cases st.session.output_queue.items) [
    | inl nothing ↦ absurd (ground arith)
    | inr (output_audio start pcm valid, es, q) ↦
        (output_audio start pcm valid, es, q, ground arith, ground arith)
    | inr (stream_completion input output flushed, es, q) ↦
        (stream_completion input output flushed, es, q, ground arith, ground arith)
    | inr (rpc_failure status detail, es, q) ↦
        (rpc_failure status detail, es, q, ground arith, ground arith)
  ]

  -- The handler is at its end: the stream is cancelled and its queues are empty.
  pub finalize-Inv :
      (st : Stream S C) (s : System S C)
      → Inv (view s)
      → st.session.input_start_sample ≡ s.stream.session.input_start_sample
      → st.session.output_sequence ≡ s.stream.session.output_sequence
      → st.session.output_samples ≡ s.stream.session.output_samples
      → st.session.input_samples ≡ s.stream.session.input_samples
      → Inv (view (record s { stream = finalize st; handling = false }))
  finalize-Inv st s i base sequence output input = rw (finalize_lem st) (
      cancelled-Inv {v = view s} _ i refl base sequence refl output (omega (arith, input)) (λ h. cc)
        (λ n. refl))

  -- A turn of the handler's loop.
  pub handle_event-Inv :
      (st : Stream S C) (reply : Reply) (s : System S C)
      → s.handling ≡ true
      → handle_event s.stream ≡ some (st, reply)
      → Inv (view s)
      → Inv (view (after_reply st reply s))
  unfolding after_reply reply_of left_by
  handle_event-Inv st reply s h ran i = moved (handle_event_lem s.stream st reply ran)
    where
      moved :
          ((e : OutputEvent) × (es : List OutputEvent) × (s.stream.session.output_queue.items
              ≡ e ∷ es)
            × (reply ≡ reply_of e s.stream.session)
            × (st.session ≡ left_by e (rest_of es s.stream.session)))
          → Inv (view (after_reply st reply s))
      moved (output_audio start pcm valid, es, q, r, e) =
          rw (r, e) (sent_audio-Inv (view s) start valid pcm es i h q)
      moved (stream_completion input output flushed, es, q, r, e) =
          rw (r, finalize_lem st, e) (sent_end-Inv (view s) input output flushed es i h q)
      moved (rpc_failure status detail, es, q, r, e) =
          rw r (finalize-Inv st s i (rw e refl) (rw e refl) (rw e refl) (rw e refl))
