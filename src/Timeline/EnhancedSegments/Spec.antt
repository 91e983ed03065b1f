-- ===== src/Timeline/EnhancedSegments/Spec.antt =====
-- The abstract timeline: a partial map from byte positions to bytes, and when a list of segments
-- is a proper representation of one.
use vox_lattice.Base.{
  ℕ, zero, suc, ◌+◌, ◌-◌, ◌*◌, ◌%◌, ◌≤◌, ◌<◌, ◌≡◌, refl, sym, ap, List, [], ◌∷◌, ◌&&◌, Option, none,
  some, arith, ltb, leb, if◌then◌else◌, length, get_elem?, Option-cases, inl, inr,
}
use vox_lattice.Timeline.EnhancedSegments.{Segment, end_sample}

-- Sorted, disjoint, non-empty, of whole samples, and not before `lo`.
abbrev pub Ordered : ℕ → List Segment → Type 0
Ordered lo [] = Unit
Ordered lo (g ∷ gs) =
    (lo ≤ g.start_sample)
    × (0 < length g.pcm_s16le)
    × (length g.pcm_s16le % 2 ≡ 0)
    × Ordered (end_sample g) gs

-- Byte `k` of the timeline: sample `s` is the bytes `2 s` and `2 s + 1`.
unfoldable pub byte_at : ℕ → List Segment → Option ℕ
byte_at k [] = none
byte_at k (g ∷ gs) =
    if leb (g.start_sample * 2) k && ltb k (g.start_sample * 2 + length g.pcm_s16le)
    then get_elem? g.pcm_s16le (k - g.start_sample * 2)
    else byte_at k gs

-- The `n` bytes from position `k` on, if all are there.
unfoldable pub gather : ℕ → ℕ → List Segment → Option (List ℕ)
gather zero k gs = some []
gather (suc n) k gs = elim (byte_at k gs) [
  | none ↦ none
  | some b ↦ elim (gather n (suc k) gs) [ none ↦ none | some bs ↦ some (b ∷ bs) ]
]

-- Nothing is held before the first segment.
pub byte_at_before :
    (k lo : ℕ) (gs : List Segment) → Ordered lo gs → k < lo * 2 → byte_at k gs ≡ none
unfolding byte_at end_sample
byte_at_before k lo [] v h = refl
byte_at_before k lo (g ∷ gs) v h = ground (arith, byte_at_before k (end_sample g) gs)

-- The bytes after the first one are gathered from the next position.
gather-suc :
    (n k : ℕ) (gs : List Segment) (out : List ℕ)
    → gather (suc n) k gs ≡ some out
    → (b : ℕ) × (bs : List ℕ) × (byte_at k gs ≡ some b)
      × (gather n (suc k) gs ≡ some bs)
      × (out ≡ b ∷ bs)
unfolding gather
gather-suc n k gs out h = elim (Option-cases (byte_at k gs)) [
  | inl e ↦ absurd (ground arith)
  | inr (b, e) ↦ elim (Option-cases (gather n (suc k) gs)) [
    | inl f ↦ absurd (ground arith)
    | inr (bs, f) ↦ (b, bs, e, f, ground arith)
  ]
]

pub length-gather :
    (n k : ℕ) (gs : List Segment) (out : List ℕ) → gather n k gs ≡ some out → length out ≡ n
unfolding gather
length-gather zero k gs out h = ground arith
length-gather (suc n) k gs out h =
    let (b, bs, e, f, o) = gather-suc n k gs out h in
    rw o (ap suc (length-gather n (suc k) gs bs f))

-- A gathered answer has the timeline's byte at each position.
pub get_elem?-gather :
    (n k : ℕ) (gs : List Segment) (out : List ℕ) (i : ℕ)
    → gather n k gs ≡ some out
    → i < n
    → get_elem? out i ≡ byte_at (k + i) gs
get_elem?-gather zero k gs out i h lt = absurd (omega arith)
get_elem?-gather (suc n) k gs out zero h lt =
    let (b, bs, e, f, o) = gather-suc n k gs out h in
    let z : k + 0 ≡ k = omega arith in rw (o, z) (sym e)
get_elem?-gather (suc n) k gs out (suc i) h lt =
    let (b, bs, e, f, o) = gather-suc n k gs out h in
    let z : k + suc i ≡ suc k + i = omega arith in
    rw (o, z) (get_elem?-gather n (suc k) gs bs i f (omega arith))

pub Ordered-weaken : (lo hi : ℕ) (gs : List Segment) → lo ≤ hi → Ordered hi gs → Ordered lo gs
Ordered-weaken lo hi [] h v = tt
Ordered-weaken lo hi (g ∷ gs) h v = (omega arith, v.1, v.2, v.3)
