-- ===== src/Timeline/EnhancedSegments/Discard.antt =====
-- `discard_before` forgets what lies before a sample, and nothing else.
use vox_lattice.Base.{
  ℕ, ◌+◌, ◌-◌, ◌*◌, ◌%◌, ◌≤◌, ◌<◌, ◌≡◌, refl, ◌⊎◌, inl, inr, sym, ap, ◌∙◌, List, [], ◌∷◌, none,
  arith, ltb, Bool-cases, ltb→lt, if◌then◌else◌, length, get_elem?, drop, length-drop,
  get_elem?-drop,
}
use vox_lattice.Timeline.EnhancedSegments.{Segment, end_sample, discard_before}
use vox_lattice.Timeline.EnhancedSegments.Spec.{Ordered, byte_at, byte_at_before, Ordered-weaken}

-- The part of a segment from sample `s` on.
abbrev cut : ℕ → Segment → Segment
cut s g = record { start_sample = s; pcm_s16le = drop ((s - g.start_sample) * 2) g.pcm_s16le }

-- The three ways in which a segment can lie to the bound.
discard_before-cons :
    (s : ℕ) (g : Segment) (gs : List Segment)
    → ((end_sample g ≤ s) × (discard_before s (g ∷ gs) ≡ discard_before s gs))
      ⊎ (((g.start_sample < s)
            × (s < end_sample g)
            × (discard_before s (g ∷ gs) ≡ cut s g ∷ discard_before s gs))
          ⊎ ((s ≤ g.start_sample) × (discard_before s (g ∷ gs) ≡ g ∷ discard_before s gs)))
unfolding discard_before
discard_before-cons s g gs = ground arith

end_sample-cut :
    (s : ℕ) (g : Segment)
    → g.start_sample < s
    → s < end_sample g
    → length g.pcm_s16le % 2 ≡ 0
    → (0 < length (cut s g).pcm_s16le)
      × (length (cut s g).pcm_s16le % 2 ≡ 0)
      × (end_sample (cut s g) ≡ end_sample g)
unfolding end_sample
end_sample-cut s g low high even =
    ground (arith, length-drop ((s - g.start_sample) * 2) g.pcm_s16le)

end_sample-le : (lo : ℕ) (g : Segment) → lo ≤ g.start_sample → lo ≤ end_sample g
unfolding end_sample
end_sample-le lo g h = omega arith

byte_at-past :
    (k : ℕ) (g : Segment) (gs : List Segment)
    → length g.pcm_s16le % 2 ≡ 0
    → end_sample g * 2 ≤ k
    → byte_at k (g ∷ gs) ≡ byte_at k gs
unfolding byte_at end_sample
byte_at-past k g gs even h = ground arith

byte_at-cons :
    (k : ℕ) (g : Segment) (gs hs : List Segment)
    → byte_at k gs ≡ byte_at k hs
    → byte_at k (g ∷ gs) ≡ byte_at k (g ∷ hs)
unfolding byte_at
byte_at-cons k g gs hs e = ground arith

discard_before-Ordered_from :
    (s lo : ℕ) (gs : List Segment) → Ordered lo gs → Ordered lo (discard_before s gs)
unfolding discard_before
discard_before-Ordered_from s lo [] v = tt
discard_before-Ordered_from s lo (g ∷ gs) v = elim (discard_before-cons s g gs) [
  | inl (h, e) ↦ rw e (
      discard_before-Ordered_from s lo gs
        (Ordered-weaken lo (end_sample g) gs (end_sample-le lo g v.0) v.3))
  | inr (inl (l, h, e)) ↦
      let (pos, even, same) = end_sample-cut s g l h v.2 in
      rw e (
        omega (arith, v.0),
        pos,
        even,
        rw same (discard_before-Ordered_from s (end_sample g) gs v.3),
      )
  | inr (inr (h, e)) ↦ rw e (v.0, v.1, v.2, discard_before-Ordered_from s (end_sample g) gs v.3)
]

byte_at-cut :
    (s k : ℕ) (g : Segment) (gs : List Segment) (rest : List Segment)
    → g.start_sample < s
    → s < end_sample g
    → length g.pcm_s16le % 2 ≡ 0
    → s * 2 ≤ k
    → byte_at k rest ≡ byte_at k gs
    → byte_at k (cut s g ∷ rest) ≡ byte_at k (g ∷ gs)
unfolding byte_at end_sample
byte_at-cut s k g gs rest low high even h e =
    let q : (s - g.start_sample) * 2 + (k - s * 2) ≡ k - g.start_sample * 2 = omega arith in
    ground (
      arith,
      length-drop ((s - g.start_sample) * 2) g.pcm_s16le,
      get_elem?-drop ((s - g.start_sample) * 2) g.pcm_s16le (k - s * 2)
          ∙ ap (get_elem? g.pcm_s16le) q,
    )

byte_at-discard_before_from :
    (s lo k : ℕ) (gs : List Segment)
    → Ordered lo gs
    → s * 2 ≤ k
    → byte_at k (discard_before s gs) ≡ byte_at k gs
unfolding discard_before
byte_at-discard_before_from s lo k [] v h = refl
byte_at-discard_before_from s lo k (g ∷ gs) v h =
    let ih : byte_at k (discard_before s gs) ≡ byte_at k gs =
      byte_at-discard_before_from s (end_sample g) k gs v.3 h in
    elim (discard_before-cons s g gs) [
      | inl (l, e) ↦ rw e (ih ∙ sym (byte_at-past k g gs v.2 (omega arith)))
      | inr (inl (l, r, e)) ↦ rw e (byte_at-cut s k g gs (discard_before s gs) l r v.2 h ih)
      | inr (inr (l, e)) ↦ rw e (byte_at-cons k g (discard_before s gs) gs ih)
    ]

discard_before-Ordered :
    (s lo : ℕ) (gs : List Segment) → Ordered lo gs → Ordered s (discard_before s gs)
unfolding discard_before
discard_before-Ordered s lo [] v = tt
discard_before-Ordered s lo (g ∷ gs) v = elim (discard_before-cons s g gs) [
  | inl (h, e) ↦ rw e (discard_before-Ordered s (end_sample g) gs v.3)
  | inr (inl (l, h, e)) ↦
      let (pos, even, same) = end_sample-cut s g l h v.2 in
      rw e (omega arith, pos, even, rw same (discard_before-Ordered_from s (end_sample g) gs v.3))
  | inr (inr (h, e)) ↦ rw e (h, v.1, v.2, discard_before-Ordered_from s (end_sample g) gs v.3)
]

-- Discarding before a sample keeps ordered segments ordered, forgets every byte before that
-- sample and keeps every byte from it on.
pub discard_before_refines :
    (s : ℕ) (gs : List Segment)
    → Ordered 0 gs
    → Ordered 0 (discard_before s gs)
      × ((k : ℕ) → byte_at k (discard_before s gs) ≡ (if ltb k (s * 2) then none else byte_at k gs))
discard_before_refines s gs v = (
  discard_before-Ordered_from s 0 gs v,
  λ k. elim (Bool-cases (ltb k (s * 2))) [
    | inl h ↦
        rw h (
          byte_at_before k s (discard_before s gs) (discard_before-Ordered s 0 gs v) (ltb→lt _ _ h))
    | inr h ↦ rw h (byte_at-discard_before_from s 0 k gs v (ground arith))
  ],
)
