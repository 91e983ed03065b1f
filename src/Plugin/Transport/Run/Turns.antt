-- ===== src/Plugin/Transport/Run/Turns.antt =====
-- The loop of `_run` as a composition of turns: what holds of every turn and is kept by going on holds of
-- every run.
use mathlib.Core.Path.{subst}
use vox_lattice.Base.{◌≡◌, refl, sym, true, false, Bool-cases, inl, inr, List, [], ◌∷◌, ◌++◌, arith}
use vox_lattice.Plugin.Transport.Run.{Turn, Loop, Left, turn, run}

-- Before the first turn.
abbrev pub not_begun : Loop → Left
not_begun l = record { loop = l; calls = []; goes_on = true }

-- A turn that goes on, and what follows it.
abbrev pub followed : Left → Left → Left
followed left rest = record rest { calls = left.calls ++ rest.calls }

pub run-nil : (l : Loop) → run [] l ≡ not_begun l
unfolding run
run-nil l = refl

pub run-on :
    (t : Turn) (ts : List Turn) (l : Loop)
    → (turn t l).goes_on ≡ true
    → run (t ∷ ts) l ≡ followed (turn t l) (run ts (turn t l).loop)
unfolding run
run-on t ts l on = ground (arith, on)

pub run-off :
    (t : Turn) (ts : List Turn) (l : Loop) → (turn t l).goes_on ≡ false → run (t ∷ ts) l ≡ turn t l
unfolding run
run-off t ts l off = ground (arith, off)

pub run-induct :
    (P : Loop → Left → Type 0)
    → ((l : Loop) → P l (not_begun l))
    → ((t : Turn) (l : Loop) → P l (turn t l))
    → ((l : Loop) (left rest : Left)
        → left.goes_on ≡ true
        → P l left
        → P left.loop rest
        → P l (followed left rest))
    → (ts : List Turn) (l : Loop) → P l (run ts l)
run-induct P nil one more [] l = subst (P l) (sym (run-nil l)) (nil l)
run-induct P nil one more (t ∷ ts) l = elim (Bool-cases (turn t l).goes_on) [
  | inl on ↦ subst (P l) (sym (run-on t ts l on)) (
      more l (turn t l) (run ts (turn t l).loop) on (one t l)
        (run-induct P nil one more ts (turn t l).loop))
  | inr off ↦ subst (P l) (sym (run-off t ts l off)) (one t l)
]
