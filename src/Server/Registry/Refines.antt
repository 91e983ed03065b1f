-- ===== src/Server/Registry/Refines.antt =====
-- The registry over any calls of its two methods, against a map from stream IDs to sessions and a count.
use mathlib.Core.List.{lookup}
use mathlib.Core.Logic.{ite}
use mathlib.Core.Path.{subst₂}
use vox_lattice.Base.{
  ℕ, ◌+◌, ◌-◌, ◌≤◌, ◌<◌, ◌≡◌, refl, sym, ap, ap₂, ◌∙◌, inl, inr, Bool-cases, Option, none, some,
  Option-cases, List, [], ◌∷◌, ◌++◌, leb, ◌==◌, if◌then◌else◌, arith, length, length-append,
}
use vox_lattice.Server.Metrics.{StatusCode, already_exists, resource_exhausted}
use vox_lattice.Server.Registry.Entries.{
  assign, Distinct, lookup-snoc, Distinct-snoc, lookup-delete, Distinct-delete, length-delete,
}
use vox_lattice.Server.Registry.{StreamRegistry, registered, refused, delete, add, remove}

-- A call of a method with a session.
pub data Operation (K : Type 0) : Type 0 where
  adds removes : (stream_id : K) (object_id : ℕ) → Operation K

-- What the registry promises: the session that each ID stands for, and how many there are.
pub record Streams (K : Type 0) : Type 0 where
  pub held : K → Option ℕ
  pub count : ℕ

module _ {K : Type 0} (dec : Discrete K) where
  -- The registry after a call, and the status of the error that it raised.
  unfoldable pub call : Operation K → StreamRegistry K → StreamRegistry K × Option StatusCode
  call (adds k o) r = elim (add dec k o r) [
    | registered r' ↦ (r', none)
    | refused status detail ↦ (r, some status)
  ]
  call (removes k o) r = (remove dec k o r, none)

  unfoldable pub run :
      List (Operation K) → StreamRegistry K → StreamRegistry K × List (Option StatusCode)
  run [] r = (r, [])
  run (op ∷ ops) r =
      let (r', answer) = call op r in let (r'', answers) = run ops r' in (r'', answer ∷ answers)

  -- A free ID is taken while there is room; an ID is freed by the session that holds it.
  unfoldable pub promised : ℕ → Operation K → Streams K → Streams K × Option StatusCode
  promised limit (adds k o) m = elim (m.held k) [
    | some _ ↦ (m, some already_exists)
    | none ↦
        if leb limit m.count
        then (m, some resource_exhausted)
        else (record { held = assign dec k (some o) m.held; count = m.count + 1 }, none)
  ]
  promised limit (removes k o) m = elim (m.held k) [
    | none ↦ (m, none)
    | some holder ↦
        if holder == o
        then (record { held = assign dec k none m.held; count = m.count - 1 }, none)
        else (m, none)
  ]

  unfoldable pub promised_run :
      ℕ → List (Operation K) → Streams K → Streams K × List (Option StatusCode)
  promised_run limit [] m = (m, [])
  promised_run limit (op ∷ ops) m =
      let (m', answer) = promised limit op m in
      let (m'', answers) = promised_run limit ops m' in (m'', answer ∷ answers)

  -- The registry implements the map.
  record Implements (limit : ℕ) (r : StreamRegistry K) (m : Streams K) : Type 0 where
    limited : r.max_active_streams ≡ limit
    same : (k : K) → lookup dec k r.sessions ≡ m.held k
    counted : length r.sessions ≡ m.count
    bounded : length r.sessions ≤ limit
    distinct : Distinct dec r.sessions

  abbrev Agree : ℕ → StreamRegistry K × Option StatusCode → Streams K × Option StatusCode → Type 0
  Agree limit x y = (x.1 ≡ y.1) × Implements limit x.0 y.0

  lookup_nil : (k : K) → lookup {B = ℕ} dec k [] ≡ none
  unfolding lookup
  lookup_nil k = refl

  assigned :
      (k : K) (o : Option ℕ) (k' : K) {a b : Option ℕ}
      → a ≡ b
      → ite {C = Option ℕ} (dec k' k) o a ≡ ite {C = Option ℕ} (dec k' k) o b
  assigned k o k' e = ap (λ x. ite {C = Option ℕ} (dec k' k) o x) e

  added-Implements :
      (limit : ℕ) (k : K) (o : ℕ) (r : StreamRegistry K) (m : Streams K)
      → lookup dec k r.sessions ≡ none
      → length r.sessions < limit
      → Implements limit r m
      → Implements limit
          (record r { sessions = r.sessions ++ (k, o) ∷ [] })
          (record { held = assign dec k (some o) m.held; count = m.count + 1 })
  added-Implements limit k o r m free room i = record {
    limited = i.limited;
    same = λ k'. lookup-snoc dec k o r.sessions k' free ∙ assigned k (some o) k' (i.same k');
    counted = omega (arith, i.counted, length-append r.sessions ((k, o) ∷ []));
    bounded = omega (arith, room, length-append r.sessions ((k, o) ∷ []));
    distinct = Distinct-snoc dec k o r.sessions free i.distinct;
  }

  removed-Implements :
      (limit : ℕ) (k : K) (o : ℕ) (r : StreamRegistry K) (m : Streams K)
      → lookup dec k r.sessions ≡ some o
      → Implements limit r m
      → Implements limit
          (record r { sessions = delete dec k r.sessions })
          (record { held = assign dec k none m.held; count = m.count - 1 })
  removed-Implements limit k o r m found i = record {
    limited = i.limited;
    same = λ k'. lookup-delete dec k r.sessions k' i.distinct ∙ assigned k none k' (i.same k');
    counted = omega (arith, i.counted, length-delete dec k o r.sessions found);
    bounded = omega (arith, i.bounded, length-delete dec k o r.sessions found);
    distinct = Distinct-delete dec k r.sessions i.distinct;
  }

  call-Agree :
      (limit : ℕ) (op : Operation K) (r : StreamRegistry K) (m : Streams K)
      → Implements limit r m
      → Agree limit (call op r) (promised limit op m)
  unfolding call promised add remove
  call-Agree limit (adds k o) r m i = elim (Option-cases (lookup dec k r.sessions)) [
    | inr (other, taken) ↦
        let c : call (adds k o) r ≡ (r, some already_exists) = ground (arith, taken) in
        let p : promised limit (adds k o) m ≡ (m, some already_exists) =
          ground (arith, taken, i.same k) in
        subst₂ (λ x y. Agree limit x y) (sym c) (sym p) (refl, i)
    | inl free ↦ elim (Bool-cases (leb limit (length r.sessions))) [
      | inl full ↦
          let c : call (adds k o) r ≡ (r, some resource_exhausted) =
            ground (arith, free, full, i.limited) in
          let p : promised limit (adds k o) m ≡ (m, some resource_exhausted) =
            ground (arith, free, i.same k, full, i.counted) in
          subst₂ (λ x y. Agree limit x y) (sym c) (sym p) (refl, i)
      | inr room ↦
          let c : call (adds k o) r ≡ (record r { sessions = r.sessions ++ (k, o) ∷ [] }, none) =
            ground (arith, free, room, i.limited) in
          let p : promised limit (adds k o) m
              ≡ (record { held = assign dec k (some o) m.held; count = m.count + 1 }, none) =
            ground (arith, free, i.same k, room, i.counted) in
          subst₂ (λ x y. Agree limit x y) (sym c) (sym p)
            (refl, added-Implements limit k o r m free (ground arith) i)
    ]
  ]
  call-Agree limit (removes k o) r m i = elim (Option-cases (lookup dec k r.sessions)) [
    | inl free ↦
        let c : call (removes k o) r ≡ (r, none) = ground (arith, free) in
        let p : promised limit (removes k o) m ≡ (m, none) = ground (arith, free, i.same k) in
        subst₂ (λ x y. Agree limit x y) (sym c) (sym p) (refl, i)
    | inr (found, taken) ↦ elim (Bool-cases (found == o)) [
      | inl mine ↦
          let c : call (removes k o) r ≡ (record r { sessions = delete dec k r.sessions }, none) =
            ground (arith, taken, mine) in
          let p : promised limit (removes k o) m
              ≡ (record { held = assign dec k none m.held; count = m.count - 1 }, none) =
            ground (arith, taken, i.same k, mine) in
          subst₂ (λ x y. Agree limit x y) (sym c) (sym p)
            (refl, removed-Implements limit k o r m (ground (arith, taken, mine)) i)
      | inr differs ↦
          let c : call (removes k o) r ≡ (r, none) = ground (arith, taken, differs) in
          let p : promised limit (removes k o) m ≡ (m, none) =
            ground (arith, taken, i.same k, differs) in
          subst₂ (λ x y. Agree limit x y) (sym c) (sym p) (refl, i)
    ]
  ]

  run-Agree :
      (limit : ℕ) (ops : List (Operation K)) (r : StreamRegistry K) (m : Streams K)
      → Implements limit r m
      → ((run ops r).1 ≡ (promised_run limit ops m).1)
        × Implements limit (run ops r).0 (promised_run limit ops m).0
  unfolding run promised_run
  run-Agree limit [] r m i = (refl, i)
  run-Agree limit (op ∷ ops) r m i =
      let (answer, j) = call-Agree limit op r m i in
      let (answers, k) = run-Agree limit ops (call op r).0 (promised limit op m).0 j in
      (ap₂ ◌∷◌ answer answers, k)

  -- Over any calls of add and remove on a new registry, the errors and the sessions are those
  -- of a map from stream IDs that takes a free ID while fewer than the limit are held, refuses
  -- an ID in use or one too many with its own status, and frees an ID only for the session
  -- that holds it; there are as many entries as the map counts, at most the limit.
  pub run_refines :
      (limit : ℕ) (ops : List (Operation K))
      → (let r = run ops (record { max_active_streams = limit; sessions = [] }) in
          let m = promised_run limit ops (record { held = λ _. none; count = 0 }) in
          (r.1 ≡ m.1)
          × ((k : K) → lookup dec k r.0.sessions ≡ m.0.held k)
          × (length r.0.sessions ≡ m.0.count)
          × (m.0.count ≤ limit))
  run_refines limit ops =
      let (answers, i) =
        run-Agree limit ops (record { max_active_streams = limit; sessions = [] })
          (record { held = λ _. none; count = 0 })
          (record {
            limited = refl;
            same = lookup_nil;
            counted = refl;
            bounded = omega arith;
            distinct = tt;
          }) in
      (answers, i.same, i.counted, omega (arith, i.counted, i.bounded))
