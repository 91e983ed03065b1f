-- ===== src/Server/System.antt =====
-- One stream of the server as a transition system: the reader (`_read_requests`), the scheduler's
-- loop (`_run`), the handler (`Enhance`) and everything else that runs between two of their awaits.
-- Each step is the code between two awaits of one task.
pub mod Origin
pub mod Flow
pub mod Invariant
pub mod Steps
pub mod Safety
pub mod Promises
pub mod Run
use vox_lattice.Base.{
  ℕ, ◌*◌, ◌≡◌, String, Bool, true, false, Option, none, some, List, [], ◌∷◌, ◌++◌, if◌then◌else◌,
  length,
}
use vox_lattice.Audio.Pcm.{Float32}
use vox_lattice.Audio.Rechunker.{hop_samples}
use vox_lattice.Server.Queue.{Queue}
use vox_lattice.Server.Metrics.{StatusCode, internal, ServerMetrics}
use vox_lattice.Server.Session.{ModelWork, StreamSession}
use vox_lattice.Server.Scheduler.{Stream, Exit, returned, queue_full, fail, collect, apply_result}
use vox_lattice.Server.Service.{
  Request, Todo, Outcome, enqueues, violation, internal_error, finished, ServerMessage, Reply,
  sends, ends_with, aborts, reader_fails, handle_event, finalize, advance, read_request,
}

-- `todo` is what the reader still enqueues, `in_flight` the work in the current batch, `sent` the
-- messages that went to the client after `StreamAccepted`, the last one last.
pub record System (S C : Type 0) : Type 0 where
  pub stream : Stream S C
  pub saw_end : Bool
  pub reading : Bool
  pub handling : Bool
  pub todo : List (Todo S)
  pub in_flight : Option (ModelWork S)
  pub sent : List ServerMessage

module _ {S C : Type 0} where
  -- An exception in the reader, in its `except` clauses.
  unfoldable pub reader_ends : StatusCode → String → Stream S C → System S C → System S C
  reader_ends status detail st s = record s {
    stream = (reader_fails status detail st).0;
    reading = false;
    todo = [];
  }

  unfoldable pub after_outcome : Stream S C → Outcome S → System S C → System S C
  after_outcome st (enqueues todo) s = record s { stream = st; todo = todo }
  after_outcome st (violation status detail) s = reader_ends status detail st s
  after_outcome st internal_error s = reader_ends internal "request processing failed" st s
  after_outcome st finished s = record s { stream = st; reading = false }

  -- `QueueFull` out of `notify` is caught by the reader's last `except`.
  unfoldable pub after_advance : List (Todo S) → Stream S C → Exit → System S C → System S C
  after_advance todo st returned s = record s { stream = st; todo = todo }
  after_advance todo st queue_full s = reader_ends internal "request processing failed" st s

  unfoldable pub after_reply : Stream S C → Reply → System S C → System S C
  after_reply st (sends message) s = record s { stream = st; sent = s.sent ++ message ∷ [] }
  after_reply st (ends_with message) s = record s {
    stream = finalize st;
    sent = s.sent ++ message ∷ [];
    handling = false;
  }
  after_reply st (aborts status detail) s = record s { stream = finalize st; handling = false }

  -- A stream that was just accepted.
  abbrev pub start : StreamSession S C → ServerMetrics → Queue ℕ → System S C
  start session metrics ready = record {
    stream = record { session = session; metrics = metrics; ready = ready; closing = false };
    saw_end = false;
    reading = true;
    handling = true;
    todo = [];
    in_flight = none;
    sent = [];
  }

module _ (f : Float32) {C : Type 0} (max_chunk : ℕ) where
  open f use {Value}

  pub data Step (s : System Value C) : System Value C → Type 0 where
    -- the reader takes the next request, once everything is enqueued
    reads :
        (garbage : List Value) (request : Request)
        → s.reading ≡ true
        → s.todo ≡ []
        → (saw_end : Bool) (st : Stream Value C) (outcome : Outcome Value)
        → read_request f max_chunk garbage s.saw_end request s.stream ≡ (saw_end, st, outcome)
        → Step s (after_outcome st outcome (record s { saw_end = saw_end }))
    -- the reader enqueues, when the input queue has room
    enqueues_one :
        (t : Todo Value) (rest : List (Todo Value)) (st : Stream Value C) (exit : Exit)
        → s.todo ≡ t ∷ rest
        → advance f t s.stream ≡ some (st, exit)
        → Step s (after_advance rest st exit s)
    -- the reader's task is cancelled, which the handler does after it cancelled the session
    stops_reading :
        s.stream.session.cancelled ≡ true → Step s (record s { reading = false; todo = [] })
    -- the scheduler takes the stream from the ready queue; one hop of a stream is in work at most
    collects :
        (st : Stream Value C) (work : Option (ModelWork Value)) (exit : Exit)
        → s.in_flight ≡ none
        → collect s.stream ≡ (st, work, exit)
        → Step s (record s { stream = st; in_flight = work })
    -- the inference returns a hop of PCM and new caches for the stream
    infers :
        (work : ModelWork Value) (pcm : List ℕ) (updated : C)
        → s.in_flight ≡ some work
        → length pcm ≡ hop_samples * 2
        → Step s
            (record s { stream = (apply_result work pcm updated s.stream).0; in_flight = none })
    -- the inference raises
    inference_fails :
        (work : ModelWork Value)
        → s.in_flight ≡ some work
        → Step s (record s {
          stream = (fail internal "CUDA inference failed" s.stream).0;
          in_flight = none;
        })
    -- the handler takes an event
    handles :
        (st : Stream Value C) (reply : Reply)
        → s.handling ≡ true
        → handle_event s.stream ≡ some (st, reply)
        → Step s (after_reply st reply s)
    -- the RPC is cancelled, and the handler's `finally` runs
    hangs_up : Step s (record s { stream = finalize s.stream; handling = false })
    -- other streams change the metrics and the ready queue; the scheduler may be closing
    others :
        (metrics : ServerMetrics) (ready : Queue ℕ) (closing : Bool)
        → Step s (record s {
          stream = record s.stream { metrics = metrics; ready = ready; closing = closing };
        })

  pub data Reach (s : System Value C) : System Value C → Type 0 where
    here : Reach s s
    next : {t u : System Value C} → Reach s t → Step t u → Reach s u
