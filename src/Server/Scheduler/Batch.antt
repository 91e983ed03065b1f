-- ===== src/Server/Scheduler/Batch.antt =====
-- scheduler.py, `_run`, for a batch of several streams. Sessions are objects that tasks share: a store by
-- object ID. The bodies of the two loops are those of the parent, on one session of the store.
pub mod Independence
pub mod Streams
use vox_lattice.Base.{
  ℕ, zero, suc, ◌+◌, Bool, true, false, ◌||◌, Option, none, some, List, [], ◌∷◌, ◌++◌, length, ltb,
  ◌==◌, if◌then◌else◌,
}
use vox_lattice.Server.Queue.{Queue}
use vox_lattice.Server.Metrics.{ServerMetrics, internal}
use vox_lattice.Server.Session.{ModelWork, StreamSession}
use vox_lattice.Server.Scheduler.{Stream, Exit, returned, queue_full, collect, fail, apply_result}

pub record BatchScheduler (S C : Type 0) : Type 0 where
  pub sessions : ℕ → StreamSession S C
  pub metrics : ServerMetrics
  pub ready : Queue ℕ
  pub closing : Bool

-- How a loop over a batch ends: it does, or with an exception that leaves `_run`.
pub data Outcome : Type 0 where
  done left_by_queue_full left_by_index_error : Outcome

-- The loop that gathers sessions, on what each `wait_for` gives; `none` is a timeout, also the one that
-- the deadline makes before the call.
unfoldable pub gather : (max_batch_size : ℕ) → List ℕ → List (Option ℕ) → List ℕ
gather max_batch_size sessions [] = sessions
gather max_batch_size sessions (none ∷ _) = sessions
gather max_batch_size sessions (some session ∷ later) =
    let more = gather max_batch_size (sessions ++ session ∷ []) later in
    if ltb (length sessions) max_batch_size then more else sessions

abbrev pub joined :
    {S : Type 0} → ℕ → Option (ModelWork S) → List (ℕ × ModelWork S) → List (ℕ × ModelWork S)
joined id none active = active
joined id (some work) active = (id, work) ∷ active

module _ {S C : Type 0} where
  abbrev pub stream_of : ℕ → BatchScheduler S C → Stream S C
  stream_of id b = record {
    session = b.sessions id;
    metrics = b.metrics;
    ready = b.ready;
    closing = b.closing;
  }

  abbrev pub put_back : ℕ → Stream S C → BatchScheduler S C → BatchScheduler S C
  put_back id st b = record {
    sessions = λ i. if i == id then st.session else b.sessions i;
    metrics = st.metrics;
    ready = st.ready;
    closing = st.closing;
  }

  -- The loop over `sessions`: the list `active`.
  unfoldable pub collect_all :
      List ℕ → BatchScheduler S C → BatchScheduler S C × List (ℕ × ModelWork S) × Outcome
  collect_all [] b = (b, [], done)
  collect_all (id ∷ ids) b =
      let (st, work, exit) = collect (stream_of id b) in
      let (b', active, outcome) = collect_all ids (put_back id st b) in
      elim exit [
        | queue_full ↦ (put_back id st b, [], left_by_queue_full)
        | returned ↦ (b', joined id work active, outcome)
      ]

  -- The loop over `active` after the inference: each session with its PCM and its new caches.
  unfoldable pub apply_all :
      List (ℕ × ModelWork S) → List (List ℕ × C) → BatchScheduler S C → BatchScheduler S C × Outcome
  apply_all [] results b = (b, done)
  apply_all ((id, work) ∷ active) [] b =
      let rest = apply_all active [] b in
      if (b.sessions id).cancelled || (b.sessions id).ended then rest else (b, left_by_index_error)
  apply_all ((id, work) ∷ active) ((pcm, updated) ∷ results) b =
      let (st, exit) = apply_result work pcm updated (stream_of id b) in
      let rest = apply_all active results (put_back id st b) in
      elim exit [ queue_full ↦ (put_back id st b, left_by_queue_full) | returned ↦ rest ]

  -- The loop over `active` when the inference has raised.
  unfoldable pub fail_all :
      List (ℕ × ModelWork S) → BatchScheduler S C → BatchScheduler S C × Outcome
  fail_all [] b = (b, done)
  fail_all ((id, work) ∷ active) b =
      let (st, exit) = fail internal "CUDA inference failed" (stream_of id b) in
      let rest = fail_all active (put_back id st b) in
      elim exit [ queue_full ↦ (put_back id st b, left_by_queue_full) | returned ↦ rest ]

  -- What follows the inference, which gives the results or raises.
  unfoldable pub after_inference :
      List (ℕ × ModelWork S)
      → Option (List (List ℕ × C))
      → BatchScheduler S C
      → BatchScheduler S C × Outcome
  unfolding apply_all fail_all
  after_inference active none b = fail_all active b
  after_inference active (some results) b = apply_all active results b
