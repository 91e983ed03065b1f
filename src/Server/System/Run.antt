-- ===== src/Server/System/Run.antt =====
-- The transition system as a function: the tasks' turns in a given order, on concrete messages.
use vox_lattice.Base.{
  ℕ, ◌*◌, ◌≡◌, refl, sym, ◌⊎◌, inl, inr, Bool, true, false, ◌&&◌, ◌==◌, Bool-cases, none, some,
  Option-cases, List, [], ◌∷◌, if◌then◌else◌, arith, length,
}
use mathlib.Core.Path.{subst}
use vox_lattice.Audio.Pcm.{Float32}
use vox_lattice.Audio.Rechunker.{hop_samples}
use vox_lattice.Server.Scheduler.{collect, apply_result}
use vox_lattice.Server.Scheduler.Effects.{List-cases}
use vox_lattice.Server.Service.{Request, handle_event, finalize, advance, read_request}
use vox_lattice.Server.System.{
  System, after_outcome, after_advance, after_reply, reads, enqueues_one, collects, infers, handles,
  hangs_up, Reach, next,
}

-- Whose turn it is.
pub data Turn (C : Type 0) : Type 0 where
  reader : Request → Turn C
  enqueuer scheduler handler client_gone : Turn C
  inference : (pcm : List ℕ) (caches : C) → Turn C

module _ (f : Float32) {C : Type 0} (max_chunk : ℕ) where
  open f use {Value}

  idle : System Value C → Bool
  idle s = elim s.todo [ [] ↦ true | _ ∷ _ ↦ false ]

  -- A turn that cannot be taken changes nothing.
  unfoldable pub turn : Turn C → System Value C → System Value C
  unfolding idle
  turn (reader request) s =
      if s.reading && idle s
      then (let (saw_end, st, outcome) = read_request f max_chunk [] s.saw_end request s.stream in
          after_outcome st outcome (record s { saw_end = saw_end }))
      else s
  turn enqueuer s = elim s.todo [
    | [] ↦ s
    | t ∷ rest ↦ elim (advance f t s.stream) [
      | none ↦ s
      | some (st, exit) ↦ after_advance rest st exit s
    ]
  ]
  turn scheduler s = elim s.in_flight [
    | some _ ↦ s
    | none ↦ record s { stream = (collect s.stream).0; in_flight = (collect s.stream).1 }
  ]
  turn (inference pcm caches) s = elim s.in_flight [
    | none ↦ s
    | some work ↦
        if length pcm == hop_samples * 2
        then record s { stream = (apply_result work pcm caches s.stream).0; in_flight = none }
        else s
  ]
  turn handler s =
      if s.handling
      then elim (handle_event s.stream) [ none ↦ s | some (st, reply) ↦ after_reply st reply s ]
      else s
  turn client_gone s = record s { stream = finalize s.stream; handling = false }

  unfoldable pub turns : List (Turn C) → System Value C → System Value C
  turns [] s = s
  turns (t ∷ ts) s = turns ts (turn t s)

  blocked :
      (m : Turn C) (s u : System Value C)
      → Reach f max_chunk u s
      → turn m s ≡ s
      → Reach f max_chunk u (turn m s)
  blocked m s u r e = subst (Reach f max_chunk u) (sym e) r

  idle_lem : (s : System Value C) → (s.todo ≡ []) ⊎ (idle s ≡ false)
  unfolding idle
  idle_lem s = elim (List-cases s.todo) [ inl e ↦ inl e | inr (t, ts, e) ↦ inr (rw e refl) ]

  turn-Reach :
      (m : Turn C) (s u : System Value C) → Reach f max_chunk u s → Reach f max_chunk u (turn m s)
  unfolding turn
  turn-Reach (reader request) s u r = elim (Bool-cases (s.reading && idle s)) [
    | inl e ↦ rw e (
        next r (
          reads [] request (ground arith)
            (elim (idle_lem s) [ inl i ↦ i | inr i ↦ absurd (ground arith) ]) _ _ _ refl))
    | inr e ↦ rw e r
  ]
  turn-Reach enqueuer s u r = elim (List-cases s.todo) [
    | inl e ↦ blocked enqueuer s u r (ground arith)
    | inr (t, rest, e) ↦ elim (Option-cases (advance f t s.stream)) [
      | inl a ↦ blocked enqueuer s u r (ground arith)
      | inr ((st, exit), a) ↦
          subst (Reach f max_chunk u) (ground arith) (next r (enqueues_one t rest st exit e a))
    ]
  ]
  turn-Reach scheduler s u r = elim (Option-cases s.in_flight) [
    | inl e ↦ subst (Reach f max_chunk u) (ground arith) (next r (collects _ _ _ e refl))
    | inr (w, e) ↦ blocked scheduler s u r (ground arith)
  ]
  turn-Reach (inference pcm caches) s u r = elim (Option-cases s.in_flight) [
    | inl e ↦ blocked (inference pcm caches) s u r (ground arith)
    | inr (w, e) ↦ elim (Bool-cases (length pcm == hop_samples * 2)) [
      | inl l ↦
          subst (Reach f max_chunk u) (ground arith) (next r (infers w pcm caches e (ground arith)))
      | inr l ↦ blocked (inference pcm caches) s u r (ground arith)
    ]
  ]
  turn-Reach handler s u r = elim (Bool-cases s.handling) [
    | inr h ↦ blocked handler s u r (ground arith)
    | inl h ↦ elim (Option-cases (handle_event s.stream)) [
      | inl e ↦ blocked handler s u r (ground arith)
      | inr ((st, reply), e) ↦
          subst (Reach f max_chunk u) (ground arith) (next r (handles st reply h e))
    ]
  ]
  turn-Reach client_gone s u r = next r hangs_up

  -- What the turns reach is reachable.
  pub turns-Reach :
      (ts : List (Turn C)) (s u : System Value C)
      → Reach f max_chunk u s
      → Reach f max_chunk u (turns ts s)
  unfolding turns
  turns-Reach [] s u r = r
  turns-Reach (t ∷ ts) s u r = turns-Reach ts (turn t s) u (turn-Reach t s u r)
