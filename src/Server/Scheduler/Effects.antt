-- ===== src/Server/Scheduler/Effects.antt =====
-- What the scheduler's helpers do to a session.
use vox_lattice.Base.{
  ℕ, ◌+◌, ◌*◌, ◌≡◌, refl, ◌⊎◌, inl, inr, String, Bool, true, false, ◌||◌, Bool-cases, Option, none,
  some, List, [], ◌∷◌, ◌++◌, arith, take, if◌then◌else◌,
}
use vox_lattice.Audio.Rechunker.{SourceHop}
use vox_lattice.Server.Queue.{put_nowait_empty, put_nowait-eq-some, empty}
use vox_lattice.Server.Metrics.{StatusCode, resource_exhausted, output}
use vox_lattice.Server.Session.{
  ModelWork, OutputEvent, output_audio, stream_completion, rpc_failure, StreamSession, emit_nowait,
}
use vox_lattice.Server.Scheduler.{
  Stream, Exit, returned, with_session, notify, fail, full_detail, complete, complete_without_flush,
  collect, emit_previous, apply_result,
}

pub List-cases {ℓ} :
    {A : Type ℓ} (xs : List A) → (xs ≡ []) ⊎ ((a : A) × (rest : List A) × (xs ≡ a ∷ rest))
List-cases [] = inl refl
List-cases (a ∷ rest) = inr (a, rest, refl)

module _ {S C : Type 0} where
  -- A session that failed: cancelled, with the failure as its only event.
  abbrev pub failed : StatusCode → String → StreamSession S C → StreamSession S C
  failed status detail s = record s {
    cancelled = true;
    output_queue = record s.output_queue { items = rpc_failure status detail ∷ [] };
  }

  -- Failing a stream always finds room for the failure: the session is cancelled, the failure
  -- is its only event, and no exception goes out.
  pub fail_lem :
      (status : StatusCode) (detail : String) (st : Stream S C)
      → ((fail status detail st).0.session ≡ failed status detail st.session)
        × ((fail status detail st).1 ≡ returned)
  unfolding fail
  fail_lem status detail st =
      ground (arith, put_nowait_empty (rpc_failure status detail) st.session.output_queue.maxsize)

  -- `notify` changes nothing of the session but `scheduled`.
  pub notify_lem :
      (st : Stream S C)
      → (notify st).0.session ≡ record st.session { scheduled = (notify st).0.session.scheduled }
  unfolding notify
  notify_lem st = ground arith

  pub event_room :
      (e : OutputEvent) (s : StreamSession S C)
      → (emit_nowait e s ≡ none)
        ⊎ (emit_nowait e s
            ≡ some (record s {
              output_queue = record s.output_queue { items = s.output_queue.items ++ e ∷ [] };
            }))
  unfolding emit_nowait
  event_room e s = ground (arith, put_nowait-eq-some e s.output_queue)

  -- A session that completed, with the completion as its last event.
  abbrev pub completed : Bool → StreamSession S C → StreamSession S C
  completed flushed s = record s {
    ended = true;
    output_queue = record s.output_queue {
      items =
          s.output_queue.items ++ stream_completion s.input_samples s.output_samples flushed ∷ [];
    };
  }

  -- Completing an open session queues the completion or, with no room for it, fails.
  pub complete_lem :
      (flushed : Bool) (st : Stream S C)
      → st.session.ended ≡ false
      → ((complete flushed st).0.session ≡ completed flushed st.session)
        ⊎ ((complete flushed st).0.session
            ≡ failed resource_exhausted full_detail (record st.session { ended = true }))
  unfolding complete
  complete_lem flushed st open_ =
      let ended : StreamSession S C = record st.session { ended = true } in
      let event = stream_completion ended.input_samples ended.output_samples flushed in
      elim (event_room event ended) [
        | inl full ↦
            inr (
              ground (arith, full, fail_lem resource_exhausted full_detail (with_session ended st)))
        | inr room ↦ inl (ground (arith, room))
      ]

  -- What `collect` leaves: no work, the end without a flush, or the first work of the queue.
  abbrev pub resting : Stream S C → StreamSession S C
  resting st = record st.session { scheduled = false }

  abbrev pub taken : List (ModelWork S) → Stream S C → StreamSession S C
  taken ws st = record st.session {
    scheduled = false;
    input_queue = record st.session.input_queue { items = ws };
  }

  pub data Collected (st : Stream S C) (s' : StreamSession S C) (work : Option (ModelWork S))
      : Type 0 where
    rests : s' ≡ resting st → work ≡ none → Collected st s' work
    ends :
        (w : ModelWork S) (ws : List (ModelWork S)) (t : Stream S C)
        → (st.session.cancelled ≡ false) × (st.session.ended ≡ false)
        → st.session.input_queue.items ≡ w ∷ ws
        → t.session ≡ taken ws st
        → s' ≡ (complete_without_flush t).0.session
        → work ≡ none
        → Collected st s' work
    takes :
        (w : ModelWork S) (ws : List (ModelWork S))
        → (st.session.cancelled ≡ false) × (st.session.ended ≡ false)
        → st.session.input_queue.items ≡ w ∷ ws
        → s' ≡ taken ws st
        → work ≡ some w
        → Collected st s' work

  pub collect_cases : (st : Stream S C) → Collected st (collect st).0.session (collect st).1
  unfolding collect
  collect_cases st = elim (Bool-cases (st.session.cancelled || st.session.ended)) [
    | inl e ↦ rests (ground arith) (ground arith)
    | inr e ↦ elim (List-cases st.session.input_queue.items) [
      | inl nothing ↦ rests (ground arith) (ground arith)
      | inr (w, ws, q) ↦ elim (Bool-cases w.terminal_no_flush) [
        | inl last ↦
            ends w ws (with_session (taken ws st) st) (ground arith) q refl (ground arith)
              (ground arith)
        | inr more ↦ takes w ws (ground arith) q (ground arith) (ground arith)
      ]
    ]
  ]

  -- How the output of the hop before leaves a session: not at all, into the queue, or by failing.
  pub data Emitted (pcm : List ℕ) (o : Option (SourceHop S)) (s s' : StreamSession S C)
      (goes_on : Bool) : Type 0 where
    nothing : o ≡ none → s' ≡ s → goes_on ≡ true → Emitted pcm o s s' goes_on
    queued :
        (p : SourceHop S)
        → o ≡ some p
        → s' ≡ record s {
          output_samples = s.output_samples + p.valid_samples;
          output_queue = record s.output_queue {
            items =
                s.output_queue.items
                ++ output_audio p.start_sample (take (p.valid_samples * 2) pcm) p.valid_samples
                  ∷ [];
          };
        }
        → goes_on ≡ true
        → Emitted pcm o s s' goes_on
    fails :
        s' ≡ failed resource_exhausted full_detail s → goes_on ≡ false → Emitted pcm o s s' goes_on

  pub emit_previous_cases :
      (pcm : List ℕ) (o : Option (SourceHop S)) (st : Stream S C)
      → Emitted pcm o st.session (emit_previous pcm o st).0.session (emit_previous pcm o st).1
  unfolding emit_previous
  emit_previous_cases pcm none st = nothing refl refl refl
  emit_previous_cases pcm (some p) st =
      let event = output_audio p.start_sample (take (p.valid_samples * 2) pcm) p.valid_samples in
      let m = record st.metrics { backpressure = output ∷ st.metrics.backpressure } in
      elim (event_room event st.session) [
        | inl full ↦
            fails
              (ground
                (arith, full, fail_lem resource_exhausted full_detail (record st { metrics = m })))
              (ground (arith, full))
        | inr room ↦ queued p refl (ground (arith, room)) (ground (arith, room))
      ]

  -- The session before its output is emitted.
  abbrev pub updated_session : ModelWork S → C → StreamSession S C → StreamSession S C
  updated_session w caches s = record s {
    caches = caches;
    pending_source = if w.terminal_flush then none else w.source;
  }

  -- What follows the emission in `apply_result`.
  pub data Applied (w : ModelWork S) (e : Stream S C) (goes_on : Bool) (s' : StreamSession S C)
      : Type 0 where
    stopped : goes_on ≡ false → s' ≡ e.session → Applied w e goes_on s'
    last :
        goes_on ≡ true
        → w.terminal_flush ≡ true
        → s' ≡ (complete true e).0.session
        → Applied w e goes_on s'
    more :
        (scheduled : Bool)
        → goes_on ≡ true
        → s' ≡ record e.session { scheduled = scheduled }
        → Applied w e goes_on s'

  abbrev pub emission : ModelWork S → List ℕ → C → Stream S C → Stream S C × Bool × Exit
  emission w pcm caches st =
      emit_previous pcm st.session.pending_source
        (with_session (updated_session w caches st.session) st)

  pub apply_result_cases :
      (w : ModelWork S) (pcm : List ℕ) (caches : C) (st : Stream S C)
      → st.session.cancelled ≡ false
      → st.session.ended ≡ false
      → Applied w
          (emission w pcm caches st).0
          (emission w pcm caches st).1
          (apply_result w pcm caches st).0.session
  unfolding apply_result
  apply_result_cases w pcm caches st c e =
      let out : Stream S C × Bool × Exit = emission w pcm caches st in
      elim (Bool-cases out.1) [
        | inr stop ↦ stopped stop (ground (arith, stop))
        | inl on ↦ elim (Bool-cases w.terminal_flush) [
          | inl flush ↦ last on flush (ground (arith, on))
          | inr hop ↦ elim (Bool-cases (empty out.0.session.input_queue)) [
            | inl none_left ↦ more out.0.session.scheduled on (ground (arith, on, none_left))
            | inr left ↦
                more (notify out.0).0.session.scheduled on
                  (ground (arith, on, left, notify_lem out.0))
          ]
        ]
      ]

  pub complete_done :
      (flushed : Bool) (st : Stream S C) → st.session.ended ≡ true → (complete flushed st).0 ≡ st
  unfolding complete
  complete_done flushed st e = rw (e, complete)
