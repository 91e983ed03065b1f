-- ===== src/Plugin/Transport/Run/Generations.antt =====
-- The callbacks of the loop of `_run`: the generations they carry, and `CLOSED`.
use vox_lattice.Base.{
  ℕ, ◌+◌, ◌≤◌, ◌≡◌, refl, Bool, true, false, List, [], ◌∷◌, ◌++◌, append_assoc, map, if◌then◌else◌,
  arith, Bool-cases, ◌⊎◌, inl, inr, Option, none, some, ap, ◌∙◌, sym,
}
use vox_lattice.Plugin.Processor.{disconnected, connecting, active, backoff, shut}
use vox_lattice.Plugin.Transport.{GrpcWorker, AudioRequest, drain_requests}
use vox_lattice.Plugin.Transport.Responses.{
  Ending, returns, mismatch, connection_lost, Delivery, run_generation,
}
use vox_lattice.Plugin.Transport.Run.{
  Readiness, ready, unavailable, incompatible, Turn, Call, on_generation, on_audio,
  on_protocol_error, waits, polls, Loop, Left, breaks, backs_off, generation_calls, becomes_active,
  after_generation, serve, turn, run,
}
use vox_lattice.Plugin.Transport.Run.Turns.{followed, run-induct, run-on, run-off}

-- Every callback carries the generation that was current, and generations only rise, from `lo` to `hi`.
abbrev pub Rises : ℕ → ℕ → List Call → Type 0
Rises lo hi [] = lo ≤ hi
Rises lo hi (on_generation g _ ∷ r) = (lo ≤ g) × Rises g hi r
Rises lo hi (on_audio g _ ∷ r) = (lo ≤ g) × Rises g hi r
Rises lo hi (on_protocol_error g _ ∷ r) = (lo ≤ g) × Rises g hi r
Rises lo hi (waits _ ∷ r) = Rises lo hi r
Rises lo hi (polls _ ∷ r) = Rises lo hi r

Rises-from : (a b c : ℕ) (xs : List Call) → a ≤ b → Rises b c xs → Rises a c xs
Rises-from a b c [] h k = omega (arith, h, k)
Rises-from a b c (on_generation g _ ∷ xs) h k = (omega (arith, h, k.0), k.1)
Rises-from a b c (on_audio g _ ∷ xs) h k = (omega (arith, h, k.0), k.1)
Rises-from a b c (on_protocol_error g _ ∷ xs) h k = (omega (arith, h, k.0), k.1)
Rises-from a b c (waits _ ∷ xs) h k = Rises-from a b c xs h k
Rises-from a b c (polls _ ∷ xs) h k = Rises-from a b c xs h k

Rises-up : (a b c : ℕ) (xs : List Call) → Rises a b xs → b ≤ c → Rises a c xs
Rises-up a b c [] h k = omega (arith, h, k)
Rises-up a b c (on_generation g _ ∷ xs) h k = (h.0, Rises-up g b c xs h.1 k)
Rises-up a b c (on_audio g _ ∷ xs) h k = (h.0, Rises-up g b c xs h.1 k)
Rises-up a b c (on_protocol_error g _ ∷ xs) h k = (h.0, Rises-up g b c xs h.1 k)
Rises-up a b c (waits _ ∷ xs) h k = Rises-up a b c xs h k
Rises-up a b c (polls _ ∷ xs) h k = Rises-up a b c xs h k

Rises-append : (a b c : ℕ) (xs ys : List Call) → Rises a b xs → Rises b c ys → Rises a c (xs ++ ys)
Rises-append a b c [] ys h k = Rises-from a b c ys h k
Rises-append a b c (on_generation g _ ∷ xs) ys h k = (h.0, Rises-append g b c xs ys h.1 k)
Rises-append a b c (on_audio g _ ∷ xs) ys h k = (h.0, Rises-append g b c xs ys h.1 k)
Rises-append a b c (on_protocol_error g _ ∷ xs) ys h k = (h.0, Rises-append g b c xs ys h.1 k)
Rises-append a b c (waits _ ∷ xs) ys h k = Rises-append a b c xs ys h k
Rises-append a b c (polls _ ∷ xs) ys h k = Rises-append a b c xs ys h k

-- No callback tells `CLOSED`.
abbrev pub NotShut : List Call → Type 0
NotShut [] = Unit
NotShut (on_generation _ shut ∷ r) = ⊥
NotShut (_ ∷ r) = NotShut r

NotShut-append : (xs ys : List Call) → NotShut xs → NotShut ys → NotShut (xs ++ ys)
NotShut-append [] ys h k = k
NotShut-append (on_generation _ disconnected ∷ xs) ys h k = NotShut-append xs ys h k
NotShut-append (on_generation _ connecting ∷ xs) ys h k = NotShut-append xs ys h k
NotShut-append (on_generation _ active ∷ xs) ys h k = NotShut-append xs ys h k
NotShut-append (on_generation _ backoff ∷ xs) ys h k = NotShut-append xs ys h k
NotShut-append (on_generation _ shut ∷ xs) ys h k = elim h [ ]
NotShut-append (on_audio _ _ ∷ xs) ys h k = NotShut-append xs ys h k
NotShut-append (on_protocol_error _ _ ∷ xs) ys h k = NotShut-append xs ys h k
NotShut-append (waits _ ∷ xs) ys h k = NotShut-append xs ys h k
NotShut-append (polls _ ∷ xs) ys h k = NotShut-append xs ys h k

-- `CLOSED` is told once, last, and in the current generation; or not yet.
abbrev pub Closed : Left → Type 0
Closed left =
    (earlier : List Call) × (left.calls
      ≡ earlier ++ on_generation left.loop.worker.generation shut ∷ [])
    × NotShut earlier

pub record Told (l : Loop) (left : Left) : Type 0 where
  pub rises : Rises l.worker.generation left.loop.worker.generation left.calls
  pub closed : left.goes_on ≡ false → Closed left
  pub not_closed : left.goes_on ≡ true → NotShut left.calls

followed-Closed :
    (left rest : Left) → NotShut left.calls → Closed rest → Closed (followed left rest)
followed-Closed left rest h (earlier, same, none_before) = (
  left.calls ++ earlier,
  ap (◌++◌ left.calls) same ∙ sym (append_assoc left.calls earlier _),
  NotShut-append left.calls earlier h none_before,
)

-- What the turn has told before it breaks or backs off.
record Begun (from : ℕ) (calls : List Call) (l : Loop) : Type 0 where
  rises : Rises from l.worker.generation calls
  not_shut : NotShut calls

breaks-Told :
    (l₀ l : Loop) (calls : List Call)
    → Begun l₀.worker.generation calls l
    → Told l₀ (breaks calls l)
unfolding breaks
breaks-Told l₀ l calls b = record {
  rises = Rises-append _ _ _ calls _ b.rises (omega arith, omega arith);
  closed = λ _. (calls, refl, b.not_shut);
  not_closed = λ no. ground (arith, no);
}

-- The two ways to wait.
abbrev pub IsWait : Call → Type 0
IsWait (waits _) = Unit
IsWait (polls _) = Unit
IsWait _ = ⊥

backs_off-Told :
    (wait : Call) (l₀ l : Loop) (calls : List Call)
    → IsWait wait
    → Begun l₀.worker.generation calls l
    → Told l₀ (backs_off wait calls l)
unfolding backs_off
backs_off-Told (waits d) l₀ l calls i b = record {
  rises = Rises-append _ _ _ calls _ b.rises (omega arith, omega arith);
  closed = λ no. ground (arith, no);
  not_closed = λ _. NotShut-append calls _ b.not_shut tt;
}
backs_off-Told (polls d) l₀ l calls i b = record {
  rises = Rises-append _ _ _ calls _ b.rises (omega arith, omega arith);
  closed = λ no. ground (arith, no);
  not_closed = λ _. NotShut-append calls _ b.not_shut tt;
}
backs_off-Told (on_generation _ _) l₀ l calls i b = elim i [ ]
backs_off-Told (on_audio _ _) l₀ l calls i b = elim i [ ]
backs_off-Told (on_protocol_error _ _) l₀ l calls i b = elim i [ ]

leaves-Told :
    (stopped : Bool) (wait : Call) (l₀ l : Loop) (calls : List Call)
    → IsWait wait
    → Begun l₀.worker.generation calls l
    → Told l₀ (if stopped then breaks calls l else backs_off wait calls l)
leaves-Told true wait l₀ l calls i b = breaks-Told l₀ l calls b
leaves-Told false wait l₀ l calls i b = backs_off-Told wait l₀ l calls i b

on_audio-Begun :
    (g : ℕ) (l : Loop) (ds : List Delivery)
    → g ≤ l.worker.generation
    → Begun g (map (on_audio g) ds) l
on_audio-Begun g l [] h = record { rises = h; not_shut = tt }
on_audio-Begun g l (d ∷ ds) h =
    let r : Begun g (map (on_audio g) ds) l = on_audio-Begun g l ds h in
    record { rises = (omega arith, r.rises); not_shut = r.not_shut }

generation_calls-Begun :
    (l : Loop) (is_active : Bool) (ds : List Delivery)
    → Begun l.worker.generation (generation_calls l.worker.generation is_active ds) l
unfolding generation_calls
generation_calls-Begun l true ds =
    let r : Begun l.worker.generation (map (on_audio l.worker.generation) ds) l =
      on_audio-Begun l.worker.generation l ds (omega arith) in
    record { rises = (omega arith, (omega arith, r.rises)); not_shut = r.not_shut }
generation_calls-Begun l false ds =
    let r : Begun l.worker.generation (map (on_audio l.worker.generation) ds) l =
      on_audio-Begun l.worker.generation l ds (omega arith) in
    record { rises = (omega arith, r.rises); not_shut = r.not_shut }

after_generation-Begun :
    (ending : Ending) (l : Loop)
    → Begun l.worker.generation (after_generation ending l).1 (after_generation ending l).0
unfolding after_generation drain_requests
after_generation-Begun returns l = record { rises = omega arith; not_shut = tt }
after_generation-Begun (mismatch d) l = record { rises = (omega arith, omega arith); not_shut = tt }
after_generation-Begun connection_lost l = record { rises = omega arith; not_shut = tt }

append-Begun :
    (a : ℕ) (xs ys : List Call) (l l' : Loop)
    → Begun a xs l
    → Begun l.worker.generation ys l'
    → Begun a (xs ++ ys) l'
append-Begun a xs ys l l' h k = record {
  rises = Rises-append a _ _ xs ys h.rises k.rises;
  not_shut = NotShut-append xs ys h.not_shut k.not_shut;
}

serve-Told :
    (first : AudioRequest) (t : Turn) (calls : List Call) (l : Loop)
    → Begun l.worker.generation calls l
    → Told l (serve first t calls l)
unfolding serve
serve-Told first t calls l b =
    let w' : GrpcWorker = record l.worker { generation = l.worker.generation + 1; reset = false } in
    let (deliveries, ending) =
      run_generation w'.config t.stopped t.failed first.start_sample t.messages in
    let l' : Loop = record l { worker = w' } in
    let b' : Begun l.worker.generation calls l' = record {
      rises = Rises-up _ _ _ calls b.rises (omega arith);
      not_shut = b.not_shut;
    } in
    leaves-Told t.stopped (polls _) l _ _ tt (
      append-Begun _ calls _ l' _ b' (
        append-Begun _ _ _ l' _
          (generation_calls-Begun l' (becomes_active w'.config t.messages) deliveries)
          (after_generation-Begun ending l')))

turn-Told : (t : Turn) (l : Loop) → Told l (turn t l)
unfolding turn
turn-Told t l = by_readiness t.readiness t.first
  where
    begun : List Call
    begun = on_generation l.worker.generation connecting ∷ []

    begun-Begun : Begun l.worker.generation begun l
    begun-Begun = record { rises = (omega arith, omega arith); not_shut = tt }

    by_readiness :
        (r : Readiness) (o : Option AudioRequest)
        → Told l (turn (record t { readiness = r; first = o }) l)
    by_readiness (incompatible detail) o =
        leaves-Told t.stopped (waits l.delay) l l
          (begun ++ on_protocol_error l.worker.generation detail ∷ []) tt
          (record { rises = (omega arith, (omega arith, omega arith)); not_shut = tt })
    by_readiness unavailable o = leaves-Told t.stopped (waits l.delay) l l begun tt begun-Begun
    by_readiness ready none = breaks-Told l l begun begun-Begun
    by_readiness ready (some first) =
        serve-Told first (record t { readiness = ready; first = some first }) begun l begun-Begun

-- Over any turns of the worker's loop, the generations of the callbacks only rise, from the
-- worker's generation to its last one; CLOSED is told exactly when the loop has ended, once,
-- as the last callback and in the last generation.
pub run-Told : (ts : List Turn) (l : Loop) → Told l (run ts l)
run-Told ts l =
    run-induct Told
      (λ l'. record {
        rises = omega arith;
        closed = λ no. ground (arith, no);
        not_closed = λ _. tt;
      })
      turn-Told
      (λ l' left rest on k r. record {
        rises = Rises-append _ _ _ left.calls rest.calls k.rises r.rises;
        closed = λ off. followed-Closed left rest (k.not_closed on) (r.closed off);
        not_closed =
            λ still. NotShut-append left.calls rest.calls (k.not_closed on) (r.not_closed still);
      })
      ts l

-- The turn in which the worker finds that it shall stop.
abbrev pub Stops : Turn → Type 0
Stops t = (t.stopped ≡ true) ⊎ ((t.readiness ≡ ready) × (t.first ≡ none))

turn_ends : (t : Turn) (l : Loop) → Stops t → (turn t l).goes_on ≡ false
unfolding turn serve breaks
turn_ends t l h = ground (arith, h)

-- When the worker finds in some turn that it shall stop, or takes a stop request from the
-- queue, its loop ends, whatever the turns before, and CLOSED is its last callback.
pub run_ends :
    (before after : List Turn) (t : Turn) (l : Loop)
    → Stops t
    → ((run (before ++ t ∷ after) l).goes_on ≡ false) × Closed (run (before ++ t ∷ after) l)
run_ends before after t l h =
    let ended = ends before l in (ended, (run-Told (before ++ t ∷ after) l).closed ended)
  where
    ends : (b : List Turn) (l' : Loop) → (run (b ++ t ∷ after) l').goes_on ≡ false
    ends [] l' =
        ap (λ left. left.goes_on) (run-off t after l' (turn_ends t l' h)) ∙ turn_ends t l' h
    ends (u ∷ us) l' = elim (Bool-cases (turn u l').goes_on) [
      | inl on ↦
          ap (λ left. left.goes_on) (run-on u (us ++ t ∷ after) l' on) ∙ ends us (turn u l').loop
      | inr off ↦ ap (λ left. left.goes_on) (run-off u (us ++ t ∷ after) l' off) ∙ off
    ]
