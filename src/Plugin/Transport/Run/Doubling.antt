-- ===== src/Plugin/Transport/Run/Doubling.antt =====
-- The delay of the worker while the server is away.
use vox_lattice.Base.{
  ℕ, ◌*◌, ◌^◌, ◌≤◌, min, ◌≡◌, refl, true, false, List, [], ◌∷◌, arith, ap, ◌∙◌, length, suc,
}
use vox_lattice.Plugin.Processor.{connecting}
use vox_lattice.Plugin.Transport.{GrpcWorker}
use vox_lattice.Plugin.Transport.Responses.{}
use vox_lattice.Plugin.Transport.Run.Turns.{run-on, run-nil}
use vox_lattice.Plugin.Transport.Run.{
  unavailable, Turn, Call, on_generation, waits, Loop, first_delay, backs_off, turn, run,
}

-- The server cannot be reached, and nobody asked to stop.
unfoldable pub NotReached : List Turn → Type 0
NotReached [] = Unit
NotReached (t ∷ ts) = (t.readiness ≡ unavailable) × (t.stopped ≡ false) × NotReached ts

not_reached-turn :
    (t : Turn) (l : Loop)
    → t.readiness ≡ unavailable
    → t.stopped ≡ false
    → turn t l ≡ backs_off (waits l.delay) (on_generation l.worker.generation connecting ∷ []) l
unfolding turn
not_reached-turn t l r s = ground (arith, r, s)

backs_off_goes_on :
    (wait : Call) (calls : List Call) (l : Loop) → (backs_off wait calls l).goes_on ≡ true
unfolding backs_off
backs_off_goes_on wait calls l = refl

backs_off_config :
    (wait : Call) (calls : List Call) (l : Loop)
    → (backs_off wait calls l).loop.worker.config.reconnect_max_delay
      ≡ l.worker.config.reconnect_max_delay
unfolding backs_off
backs_off_config wait calls l = refl

backs_off_delay :
    (x hi : ℕ) (wait : Call) (calls : List Call) (l : Loop)
    → l.worker.config.reconnect_max_delay ≡ hi
    → l.delay ≡ min x hi
    → (backs_off wait calls l).loop.delay ≡ min (x * 2) hi
unfolding backs_off
backs_off_delay x hi wait calls l c d = omega (arith, c, d)

power_step : (x n : ℕ) → x * 2 * 2 ^ n ≡ x * 2 ^ suc n
power_step x n = grind arith

run_doubles_from :
    (x hi : ℕ) (ts : List Turn) (l : Loop)
    → l.worker.config.reconnect_max_delay ≡ hi
    → l.delay ≡ min x hi
    → NotReached ts
    → (run ts l).loop.delay ≡ min (x * 2 ^ length ts) hi
unfolding NotReached
run_doubles_from x hi [] l c d h = ap (λ r. r.loop.delay) (run-nil l) ∙ omega (arith, d)
run_doubles_from x hi (t ∷ ts) l c d h =
    let same = not_reached-turn t l h.0 h.1 in
    ap (λ r. r.loop.delay) (run-on t ts l (ap (λ r. r.goes_on) same ∙ backs_off_goes_on _ _ l))
    ∙ run_doubles_from (x * 2) hi ts (turn t l).loop
        (ap (λ r. r.loop.worker.config.reconnect_max_delay) same ∙ backs_off_config _ _ l ∙ c)
        (ap (λ r. r.loop.delay) same ∙ backs_off_delay x hi _ _ l c d) h.2
    ∙ ap (λ y. min y hi) (power_step x (length ts))

-- With a minimal delay of at most the maximal one, after any number n of turns in which the
-- server is not reached and the worker is not stopped, the next delay of a loop that started
-- at the minimal delay is the minimal one doubled n times, or the maximal one when that is
-- less.
pub run_doubles :
    (ts : List Turn) (w : GrpcWorker)
    → NotReached ts
    → w.config.reconnect_min_delay ≤ w.config.reconnect_max_delay
    → (run ts (first_delay w)).loop.delay
      ≡ min (w.config.reconnect_min_delay * 2 ^ length ts) w.config.reconnect_max_delay
run_doubles ts w h valid = run_doubles_from _ _ ts (first_delay w) refl (omega (arith, valid)) h
