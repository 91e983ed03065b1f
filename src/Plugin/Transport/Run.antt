-- ===== src/Plugin/Transport/Run.antt =====
-- transport.py, `_run`: the worker thread's loop. What it meets in one turn (the answer of the server, the
-- next request, the state of `_stop`) is given; the turn tells the callbacks in their order.
pub mod Backoff
pub mod Doubling
pub mod Generations
pub mod Turns
use vox_lattice.Base.{
  ℕ, ◌+◌, ◌*◌, min, String, Bool, true, false, not, ◌||◌, Option, none, some, List, [], ◌∷◌, ◌++◌,
  map, if◌then◌else◌,
}
use vox_lattice.Protocol.{ServerMessage, accepted}
use vox_lattice.Plugin.Processor.{TransportState, connecting, active, backoff, shut}
use vox_lattice.Plugin.Transport.{AudioRequest, TransportConfig, GrpcWorker, drain_requests}
use vox_lattice.Plugin.Transport.Responses.{
  accepted_matches, Ending, returns, mismatch, connection_lost, Delivery, run_generation,
}

-- What `_wait_until_ready` does.
pub data Readiness : Type 0 where
  ready unavailable : Readiness
  incompatible : String → Readiness

-- `stopped` is what `_stop.is_set()` answers in the turn, also inside `_run_generation`; `first` is what
-- `_next_audio_or_stop` returns; `stretched` is a delay times what `random.uniform(0.8, 1.2)` draws in the
-- turn, in whole units; `messages` are the server's, and `failed` tells whether grpc raises.
pub record Turn : Type 0 where
  pub readiness : Readiness
  pub stopped : Bool
  pub first : Option AudioRequest
  pub messages : List ServerMessage
  pub failed : Bool
  pub stretched : ℕ → ℕ

-- A callback; a wait for the stop of at most this long; or the waits for it, of 0.05 s at most, up to a
-- deadline this far away.
pub data Call : Type 0 where
  on_generation : (generation : ℕ) (state : TransportState) → Call
  on_audio : (generation : ℕ) → Delivery → Call
  on_protocol_error : (generation : ℕ) (detail : String) → Call
  waits polls : (delay : ℕ) → Call

pub record Loop : Type 0 where
  pub worker : GrpcWorker
  pub delay : ℕ

-- How a turn leaves the loop: it goes on, or ended.
pub record Left : Type 0 where
  pub loop : Loop
  pub calls : List Call
  pub goes_on : Bool

abbrev pub first_delay : GrpcWorker → Loop
first_delay w = record { worker = w; delay = w.config.reconnect_min_delay }

-- `break`
unfoldable pub breaks : List Call → Loop → Left
breaks calls l = record {
  loop = l;
  calls = calls ++ on_generation l.worker.generation shut ∷ [];
  goes_on = false;
}

-- The wait, and the longer delay for the next time.
unfoldable pub backs_off : Call → List Call → Loop → Left
backs_off wait calls l = record {
  loop = record l { delay = min (l.delay * 2) l.worker.config.reconnect_max_delay };
  calls = calls ++ on_generation l.worker.generation backoff ∷ wait ∷ [];
  goes_on = true;
}

-- Whether `_run_generation` gets as far as `ACTIVE`.
unfoldable pub becomes_active : TransportConfig → List ServerMessage → Bool
becomes_active config (accepted a ∷ _) = accepted_matches config a
becomes_active config _ = false

-- The callbacks of `_run_generation`.
unfoldable pub generation_calls : ℕ → Bool → List Delivery → List Call
generation_calls generation is_active deliveries =
    on_generation generation connecting
    ∷ ((if is_active then on_generation generation active ∷ [] else [])
        ++ map (on_audio generation) deliveries)

-- What the `try` around `_run_generation` leaves: the delay and the queue, and the error reported.
unfoldable pub after_generation : Ending → Loop → Loop × List Call
unfolding drain_requests
after_generation returns l = (record l { delay = l.worker.config.reconnect_min_delay }, [])
after_generation (mismatch detail) l = (
  record l { worker = drain_requests l.worker },
  on_protocol_error l.worker.generation detail ∷ [],
)
after_generation connection_lost l = (record l { worker = drain_requests l.worker }, [])

-- The turn once the server is ready and audio is there.
unfoldable pub serve : AudioRequest → Turn → List Call → Loop → Left
unfolding after_generation breaks backs_off generation_calls becomes_active
serve first t calls l =
    let w = record l.worker { generation = l.worker.generation + 1; reset = false } in
    let (deliveries, ending) =
      run_generation w.config t.stopped t.failed first.start_sample t.messages in
    let (l', errors) = after_generation ending (record l { worker = w }) in
    let calls' =
      calls
      ++ (generation_calls w.generation (becomes_active w.config t.messages) deliveries
          ++ errors) in
    if t.stopped then breaks calls' l' else backs_off (polls (t.stretched l'.delay)) calls' l'

unfoldable pub turn : Turn → Loop → Left
unfolding breaks backs_off serve
turn t l =
    let begun = on_generation l.worker.generation connecting ∷ [] in
    elim t.readiness [
      | incompatible detail ↦
          let calls = begun ++ on_protocol_error l.worker.generation detail ∷ [] in
          if t.stopped then breaks calls l else backs_off (waits l.delay) calls l
      | unavailable ↦ if t.stopped then breaks begun l else backs_off (waits l.delay) begun l
      | ready ↦ elim t.first [ none ↦ breaks begun l | some first ↦ serve first t begun l ]
    ]

-- The loop, over the turns that come.
unfoldable pub run : List Turn → Loop → Left
unfolding turn
run [] l = record { loop = l; calls = []; goes_on = true }
run (t ∷ ts) l =
    let left = turn t l in
    elim left.goes_on [
      | false ↦ left
      | true ↦ let rest = run ts left.loop in record rest { calls = left.calls ++ rest.calls }
    ]
