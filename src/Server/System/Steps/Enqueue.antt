-- ===== src/Server/System/Steps/Enqueue.antt =====
-- The reader's enqueueing keeps the invariant.
use vox_lattice.Base.{
  ◌≡◌, refl, ◌⊎◌, inl, inr, Bool, true, none, some, List, [], ◌∷◌, ◌++◌, arith, ◌==◌, Bool-cases,
}
use vox_lattice.Audio.Pcm.{Float32}
use vox_lattice.Server.Queue.{put_nowait-eq-some}
use vox_lattice.Server.Metrics.{inc, internal}
use vox_lattice.Audio.Rechunker.{hop_samples}
use vox_lattice.Server.Session.{
  ModelWork, StreamSession, source_work, flush_work, no_flush_work, enqueue_source, enqueue_flush,
  enqueue_no_flush,
}
use vox_lattice.Server.Scheduler.{
  Stream, Exit, returned, queue_full, notify, complete_empty_flush, with_session,
}
use vox_lattice.Server.Scheduler.Effects.{notify_lem, complete_lem, complete_done}
use vox_lattice.Server.Service.{Todo, put_source, finish_flush, put_no_flush, advance}
use vox_lattice.Server.System.Flow.{work_item, todo_item}
use vox_lattice.Server.System.{System, after_advance, reader_ends}
use vox_lattice.Server.System.Invariant.{Inv, view, cancelled-Inv}
use vox_lattice.Server.System.Invariant.Moves.{completed-Inv, enqueued-Inv, idle-Inv}
use vox_lattice.Server.System.Steps.Reader.{Kept-refl, reader_ends-Inv}

module _ (f : Float32) {C : Type 0} where
  open f use {Value}

  pub data Advanced (t : Todo Value) (st : Stream Value C) (s' : StreamSession Value C)
      : Type 0 where
    puts :
        (w : ModelWork Value) (scheduled : Bool)
        → work_item w ≡ todo_item t
        → s' ≡ record st.session {
          scheduled = scheduled;
          input_queue = record st.session.input_queue {
            items = st.session.input_queue.items ++ w ∷ [];
          };
        }
        → Advanced t st s'
    completes :
        st.session.input_samples ≡ 0 → s' ≡ (complete_empty_flush st).0.session → Advanced t st s'

  enqueued : ModelWork Value → StreamSession Value C → StreamSession Value C
  enqueued w s = record s {
    input_queue = record s.input_queue { items = s.input_queue.items ++ w ∷ [] };
  }

  -- A `put` waits, or the work is the last of the queue.
  enqueue_source_room :
      (h : _) (s : StreamSession Value C)
      → (enqueue_source h s ≡ none) ⊎ (enqueue_source h s ≡ some (enqueued (source_work h) s))
  unfolding enqueue_source enqueued
  enqueue_source_room h s = ground (arith, put_nowait-eq-some (source_work h) s.input_queue)

  enqueue_flush_room :
      (s : StreamSession Value C)
      → (enqueue_flush f.zero s ≡ none)
        ⊎ (enqueue_flush f.zero s ≡ some (enqueued (flush_work f.zero) s))
  unfolding enqueue_flush enqueued
  enqueue_flush_room s = ground (arith, put_nowait-eq-some (flush_work f.zero) s.input_queue)

  enqueue_no_flush_room :
      (g : List Value) (s : StreamSession Value C)
      → (enqueue_no_flush g s ≡ none) ⊎ (enqueue_no_flush g s ≡ some (enqueued (no_flush_work g) s))
  unfolding enqueue_no_flush enqueued
  enqueue_no_flush_room g s = ground (arith, put_nowait-eq-some (no_flush_work g) s.input_queue)

  pub advance_cases :
      (t : Todo Value) (st st' : Stream Value C) (exit : Exit)
      → advance f t st ≡ some (st', exit)
      → Advanced t st st'.session
  unfolding advance enqueued
  advance_cases (put_source h) st st' exit e = elim (enqueue_source_room h st.session) [
    | inl waits ↦ absurd (ground (arith, waits))
    | inr room ↦
        let before : Stream Value C = record st {
          session = enqueued (source_work h) st.session;
          metrics = record st.metrics {
            input_queue_samples = inc hop_samples st.metrics.input_queue_samples;
          };
        } in
        puts (source_work h) (notify before).0.session.scheduled refl
          (ground (arith, room, notify_lem before))
  ]
  advance_cases finish_flush st st' exit e = elim (Bool-cases (st.session.input_samples == 0)) [
    | inl z ↦ completes (ground arith) (ground arith)
    | inr some_input ↦ elim (enqueue_flush_room st.session) [
      | inl waits ↦ absurd (ground (arith, waits))
      | inr room ↦
          let before : Stream Value C = with_session (enqueued (flush_work f.zero) st.session) st in
          puts (flush_work f.zero) (notify before).0.session.scheduled refl
            (ground (arith, room, notify_lem before))
    ]
  ]
  advance_cases (put_no_flush g) st st' exit e = elim (enqueue_no_flush_room g st.session) [
    | inl waits ↦ absurd (ground (arith, waits))
    | inr room ↦
        let before : Stream Value C = with_session (enqueued (no_flush_work g) st.session) st in
        puts (no_flush_work g) (notify before).0.session.scheduled refl
          (ground (arith, room, notify_lem before))
  ]

  complete_empty_flush-Inv :
      (todo : List (Todo Value)) (s : System Value C)
      → Inv (view s)
      → s.stream.session.input_samples ≡ 0
      → Inv (view (record s { stream = (complete_empty_flush s.stream).0; todo = todo }))
  unfolding complete_empty_flush
  complete_empty_flush-Inv todo s i z = elim (Bool-cases s.stream.session.ended) [
    | inl done ↦ rw (complete_done true s.stream done) (idle-Inv (view s) _ _ todo i (inr done))
    | inr running ↦ elim (complete_lem true s.stream running) [
      | inl e ↦
          rw e (completed-Inv (view s) true _ _ _ todo i (inr z) (λ _. omega (arith, i.accounted)))
      | inr e ↦ rw e (
          cancelled-Inv {v = view s} _ i refl refl refl refl refl (omega arith) (λ h. h)
            (λ n. refl))
    ]
  ]

  -- A step of the reader's enqueueing, with its exception or without.
  pub advance-Inv :
      (t : Todo Value) (rest : List (Todo Value)) (st : Stream Value C) (exit : Exit)
      (s : System Value C)
      → s.todo ≡ t ∷ rest
      → advance f t s.stream ≡ some (st, exit)
      → Inv (view s)
      → Inv (view (after_advance rest st exit s))
  unfolding after_advance reader_ends
  advance-Inv t rest st exit s head ran i = after exit
    where
      moved : Advanced t s.stream st.session → Inv (view (record s { stream = st; todo = rest }))
      moved (puts w scheduled same e) = rw e (enqueued-Inv (view s) w t rest i head same)
      moved (completes z e) = rw e (complete_empty_flush-Inv rest s i z)

      now : Inv (view (record s { stream = st; todo = rest }))
      now = moved (advance_cases t s.stream st exit ran)

      after : (x : Exit) → Inv (view (after_advance rest st x s))
      after returned = now
      after queue_full =
          reader_ends-Inv internal "request processing failed" st s.saw_end
            (record s { stream = st; todo = rest }) now (Kept-refl st.session)
