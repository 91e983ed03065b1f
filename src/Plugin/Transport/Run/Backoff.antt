-- ===== src/Plugin/Transport/Run/Backoff.antt =====
-- The waits of the worker between two attempts.
use vox_lattice.Base.{
  ℕ, ◌+◌, ◌*◌, ◌≤◌, ◌≡◌, Bool, true, false, Option, none, some, List, [], ◌∷◌, ◌++◌, map,
  if◌then◌else◌, arith, Bool-cases, inl, inr,
}
use vox_lattice.Plugin.Processor.{connecting, backoff, shut}
use vox_lattice.Plugin.Transport.{AudioRequest, TransportConfig, GrpcWorker, drain_requests}
use vox_lattice.Plugin.Transport.Responses.{
  Ending, returns, mismatch, connection_lost, Delivery, run_generation,
}
use vox_lattice.Plugin.Transport.Run.Turns.{run-on, run-off, run-nil}
use vox_lattice.Plugin.Transport.Run.{
  Readiness, ready, unavailable, incompatible, Turn, Call, on_generation, on_audio,
  on_protocol_error, waits, polls, Loop, Left, first_delay, breaks, backs_off, becomes_active,
  generation_calls, after_generation, serve, turn, run,
}

-- Each plain wait lies between the two delays, and each polled one between 0.8 times the lower and 1.2
-- times the upper.
abbrev pub WaitsWithin : ℕ → ℕ → List Call → Type 0
WaitsWithin lo hi [] = Unit
WaitsWithin lo hi (polls d ∷ r) = (lo * 8 ≤ d * 10) × (d * 10 ≤ hi * 12) × WaitsWithin lo hi r
WaitsWithin lo hi (waits d ∷ r) = (lo ≤ d) × (d ≤ hi) × WaitsWithin lo hi r
WaitsWithin lo hi (_ ∷ r) = WaitsWithin lo hi r

WaitsWithin-append :
    (lo hi : ℕ) (xs ys : List Call)
    → WaitsWithin lo hi xs
    → WaitsWithin lo hi ys
    → WaitsWithin lo hi (xs ++ ys)
WaitsWithin-append lo hi [] ys h k = k
WaitsWithin-append lo hi (waits d ∷ xs) ys h k = (h.0, h.1, WaitsWithin-append lo hi xs ys h.2 k)
WaitsWithin-append lo hi (polls d ∷ xs) ys h k = (h.0, h.1, WaitsWithin-append lo hi xs ys h.2 k)
WaitsWithin-append lo hi (on_generation _ _ ∷ xs) ys h k = WaitsWithin-append lo hi xs ys h k
WaitsWithin-append lo hi (on_audio _ _ ∷ xs) ys h k = WaitsWithin-append lo hi xs ys h k
WaitsWithin-append lo hi (on_protocol_error _ _ ∷ xs) ys h k = WaitsWithin-append lo hi xs ys h k

-- No wait among these.
WaitsWithin-on_audio : (lo hi g : ℕ) (ds : List Delivery) → WaitsWithin lo hi (map (on_audio g) ds)
WaitsWithin-on_audio lo hi g [] = tt
WaitsWithin-on_audio lo hi g (d ∷ ds) = WaitsWithin-on_audio lo hi g ds

WaitsWithin-generation_calls :
    (lo hi g : ℕ) (is_active : Bool) (ds : List Delivery)
    → WaitsWithin lo hi (generation_calls g is_active ds)
unfolding generation_calls
WaitsWithin-generation_calls lo hi g true ds = WaitsWithin-on_audio lo hi g ds
WaitsWithin-generation_calls lo hi g false ds = WaitsWithin-on_audio lo hi g ds

-- What `random.uniform(0.8, 1.2)` does to a delay.
abbrev pub Draws : Turn → Type 0
Draws t = (d : ℕ) → (d * 8 ≤ t.stretched d * 10) × (t.stretched d * 10 ≤ d * 12)

abbrev pub AllDraw : List Turn → Type 0
AllDraw [] = Unit
AllDraw (t ∷ ts) = Draws t × AllDraw ts

-- The delay is in its range.
record InRange (config : TransportConfig) (l : Loop) : Type 0 where
  same : l.worker.config ≡ config
  low : config.reconnect_min_delay ≤ l.delay
  high : l.delay ≤ config.reconnect_max_delay

record Keeps (config : TransportConfig) (left : Left) : Type 0 where
  in_range : InRange config left.loop
  within : WaitsWithin config.reconnect_min_delay config.reconnect_max_delay left.calls

module _ (config : TransportConfig)
    (valid : config.reconnect_min_delay ≤ config.reconnect_max_delay) where
  breaks-Keeps :
      (calls : List Call) (l : Loop)
      → InRange config l
      → WaitsWithin config.reconnect_min_delay config.reconnect_max_delay calls
      → Keeps config (breaks calls l)
  unfolding breaks
  breaks-Keeps calls l h w = record {
    in_range = h;
    within = WaitsWithin-append _ _ calls (on_generation l.worker.generation shut ∷ []) w tt;
  }

  backs_off-Keeps :
      (wait : Call) (calls : List Call) (l : Loop)
      → InRange config l
      → WaitsWithin config.reconnect_min_delay config.reconnect_max_delay (wait ∷ [])
      → WaitsWithin config.reconnect_min_delay config.reconnect_max_delay calls
      → Keeps config (backs_off wait calls l)
  unfolding backs_off
  backs_off-Keeps wait calls l h i w = record {
    in_range = record {
      same = h.same;
      low = rw h.same (omega (arith, h.low, valid));
      high = rw h.same (omega arith);
    };
    within =
        WaitsWithin-append _ _ calls (on_generation l.worker.generation backoff ∷ wait ∷ []) w i;
  }

  leaves-Keeps :
      (stopped : Bool) (wait : Call) (calls : List Call) (l : Loop)
      → InRange config l
      → WaitsWithin config.reconnect_min_delay config.reconnect_max_delay (wait ∷ [])
      → WaitsWithin config.reconnect_min_delay config.reconnect_max_delay calls
      → Keeps config (if stopped then breaks calls l else backs_off wait calls l)
  leaves-Keeps true wait calls l h i w = breaks-Keeps calls l h w
  leaves-Keeps false wait calls l h i w = backs_off-Keeps wait calls l h i w

  after_generation-InRange :
      (ending : Ending) (l : Loop) → InRange config l → InRange config (after_generation ending l).0
  unfolding after_generation drain_requests
  after_generation-InRange returns l h = record {
    same = h.same;
    low = rw h.same (omega arith);
    high = rw h.same valid;
  }
  after_generation-InRange (mismatch d) l h = record { same = h.same; low = h.low; high = h.high }
  after_generation-InRange connection_lost l h = record {
    same = h.same;
    low = h.low;
    high = h.high;
  }

  WaitsWithin-after_generation :
      (lo hi : ℕ) (ending : Ending) (l : Loop) → WaitsWithin lo hi (after_generation ending l).1
  unfolding after_generation
  WaitsWithin-after_generation lo hi returns l = tt
  WaitsWithin-after_generation lo hi (mismatch d) l = tt
  WaitsWithin-after_generation lo hi connection_lost l = tt

  polled :
      (t : Turn) (l : Loop)
      → Draws t
      → InRange config l
      → WaitsWithin config.reconnect_min_delay config.reconnect_max_delay
          (polls (t.stretched l.delay) ∷ [])
  polled t l draws h =
      (omega (arith, h.low, (draws l.delay).0), omega (arith, h.high, (draws l.delay).1), tt)

  serve-Keeps :
      (first : AudioRequest) (t : Turn) (calls : List Call) (l : Loop)
      → Draws t
      → InRange config l
      → WaitsWithin config.reconnect_min_delay config.reconnect_max_delay calls
      → Keeps config (serve first t calls l)
  unfolding serve
  serve-Keeps first t calls l draws h w =
      let w' : GrpcWorker = record l.worker {
        generation = l.worker.generation + 1;
        reset = false;
      } in
      let (deliveries, ending) =
        run_generation w'.config t.stopped t.failed first.start_sample t.messages in
      let l' : Loop = record l { worker = w' } in
      let h' : InRange config l' = record { same = h.same; low = h.low; high = h.high } in
      let kept : InRange config (after_generation ending l').0 =
        after_generation-InRange ending l' h' in
      leaves-Keeps t.stopped (polls _) _ _ kept (polled t _ draws kept) (
        WaitsWithin-append _ _ calls _ w (
          WaitsWithin-append _ _
            (generation_calls w'.generation (becomes_active w'.config t.messages) deliveries) _
            (WaitsWithin-generation_calls _ _ w'.generation (becomes_active w'.config t.messages)
              deliveries)
            (WaitsWithin-after_generation _ _ ending l')))

  turn-Keeps : (t : Turn) (l : Loop) → Draws t → InRange config l → Keeps config (turn t l)
  unfolding turn
  turn-Keeps t l draws h = by_readiness t.readiness t.first
    where
      begun : List Call
      begun = on_generation l.worker.generation connecting ∷ []

      by_readiness :
          (r : Readiness) (o : Option AudioRequest)
          → Keeps config (turn (record t { readiness = r; first = o }) l)
      by_readiness (incompatible detail) o =
          leaves-Keeps t.stopped (waits l.delay)
            (begun ++ on_protocol_error l.worker.generation detail ∷ []) l h (h.low, h.high, tt) tt
      by_readiness unavailable o =
          leaves-Keeps t.stopped (waits l.delay) begun l h (h.low, h.high, tt) tt
      by_readiness ready none = breaks-Keeps begun l h tt
      by_readiness ready (some first) =
          serve-Keeps first (record t { readiness = ready; first = some first }) begun l draws h tt

  run-Keeps : (ts : List Turn) (l : Loop) → AllDraw ts → InRange config l → Keeps config (run ts l)
  run-Keeps [] l draws h = rw (run-nil l) (record { in_range = h; within = tt })
  run-Keeps (t ∷ ts) l draws h =
      let k : Keeps config (turn t l) = turn-Keeps t l draws.0 h in
      elim (Bool-cases (turn t l).goes_on) [
        | inr off ↦ rw (run-off t ts l off) k
        | inl on ↦
            let r : Keeps config (run ts (turn t l).loop) =
              run-Keeps ts (turn t l).loop draws.1 k.in_range in
            rw (run-on t ts l on) (record {
              in_range = r.in_range;
              within = WaitsWithin-append _ _ (turn t l).calls _ k.within r.within;
            })
      ]

  -- With a minimal delay of at most the maximal one, and draws of random.uniform between 0.8
  -- and 1.2, in a worker's loop that starts at the minimal delay every wait after a server
  -- that was not ready lies between the two delays, and every wait after a call between 0.8
  -- times the minimal one and 1.2 times the maximal one.
  pub run-WaitsWithin :
      (ts : List Turn) (w : GrpcWorker)
      → w.config ≡ config
      → AllDraw ts
      → WaitsWithin config.reconnect_min_delay config.reconnect_max_delay
          (run ts (first_delay w)).calls
  run-WaitsWithin ts w same draws =
      (run-Keeps ts (first_delay w) draws
        (record { same = same; low = rw same (omega arith); high = rw same valid })).within
