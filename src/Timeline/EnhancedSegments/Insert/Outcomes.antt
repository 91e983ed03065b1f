-- ===== src/Timeline/EnhancedSegments/Insert/Outcomes.antt =====
-- Which inserts succeed: into a gap, or a repetition; other overlaps raise.
use vox_lattice.Base.{
  ℕ, ◌+◌, ◌-◌, ◌*◌, ◌%◌, ◌≤◌, ◌<◌, max, ◌≡◌, ◌≢◌, refl, ◌⊎◌, inl, inr, List, [], ◌∷◌, ◌++◌, none,
  some, ok, raise, value_error, arith, length, get_elem?, get_elem?_of_lt,
}
use vox_lattice.Timeline.EnhancedSegments.{
  Segment, end_sample, Scan, clear, identical, conflict, scan, place, sort_by_start, insert,
}
use vox_lattice.Timeline.EnhancedSegments.Spec.{Ordered, byte_at}
use vox_lattice.Timeline.EnhancedSegments.Insert.{
  segment, scan-clear, segment_eq_refl, overlay-identical, insert-eq-ok, insert-eq-place,
}

Scan-cases : (r : Scan) → (r ≡ clear) ⊎ ((r ≡ identical) ⊎ (r ≡ conflict))
Scan-cases clear = inl refl
Scan-cases identical = inr (inl refl)
Scan-cases conflict = inr (inr refl)

-- The segment's bytes, as positions of the timeline.
abbrev pub Within : ℕ → Segment → Type 0
Within k c = (c.start_sample * 2 ≤ k) × (k < c.start_sample * 2 + length c.pcm_s16le)

scan-clear-none :
    (c : Segment) (lo : ℕ) (gs : List Segment) (k : ℕ)
    → length c.pcm_s16le % 2 ≡ 0
    → Ordered lo gs
    → scan c gs ≡ clear
    → Within k c
    → byte_at k gs ≡ none
unfolding byte_at end_sample
scan-clear-none c lo [] k even v s h = refl
scan-clear-none c lo (g ∷ gs) k even v s h =
    ground (arith, scan-clear c g gs, scan-clear-none c (end_sample g) gs k)

overlap_held :
    (c g : Segment) (gs : List Segment)
    → 0 < length c.pcm_s16le
    → length c.pcm_s16le % 2 ≡ 0
    → 0 < length g.pcm_s16le
    → length g.pcm_s16le % 2 ≡ 0
    → g.start_sample < end_sample c
    → c.start_sample < end_sample g
    → (k : ℕ) × Within k c × Within k g × (b : ℕ) × (byte_at k (g ∷ gs) ≡ some b)
unfolding byte_at end_sample
overlap_held c g gs cp ce gp ge h1 h2 =
    let k : ℕ = max c.start_sample g.start_sample * 2 in
    let (b, e) = get_elem?_of_lt g.pcm_s16le (k - g.start_sample * 2) (omega arith) in
    (k, omega arith, omega arith, b, ground arith)

disjoint_or :
    (c g : Segment)
    → ((end_sample c ≤ g.start_sample) ⊎ (end_sample g ≤ c.start_sample))
      ⊎ ((g.start_sample < end_sample c) × (c.start_sample < end_sample g))
disjoint_or c g = grind arith

byte_at_disjoint :
    (c g : Segment) (gs : List Segment) (k : ℕ)
    → length c.pcm_s16le % 2 ≡ 0
    → length g.pcm_s16le % 2 ≡ 0
    → (end_sample c ≤ g.start_sample) ⊎ (end_sample g ≤ c.start_sample)
    → Within k c
    → byte_at k (g ∷ gs) ≡ none
    → byte_at k gs ≡ none
unfolding byte_at end_sample
byte_at_disjoint c g gs k ce ge d w h = ground arith

-- Nothing held at the candidate's bytes: the loop meets no overlap.
scan_fresh :
    (c : Segment) (lo : ℕ) (gs : List Segment)
    → 0 < length c.pcm_s16le
    → length c.pcm_s16le % 2 ≡ 0
    → Ordered lo gs
    → ((k : ℕ) → Within k c → byte_at k gs ≡ none)
    → scan c gs ≡ clear
unfolding scan byte_at
scan_fresh c lo [] pos even v h = refl
scan_fresh c lo (g ∷ gs) pos even v h = elim (disjoint_or c g) [
  | inl d ↦
      let ih : scan c gs ≡ clear =
        scan_fresh c (end_sample g) gs pos even v.3
          (λ k w. byte_at_disjoint c g gs k even v.2 d w (h k w)) in
      ground arith
  | inr (l, r) ↦
      let (k, wc, wg, b, e) = overlap_held c g gs pos even v.1 v.2 l r in
      absurd (ground (arith, h k wc))
]

scan-place :
    (c : Segment) (gs : List Segment)
    → 0 < length c.pcm_s16le
    → length c.pcm_s16le % 2 ≡ 0
    → scan c gs ≡ clear
    → scan c (place c gs) ≡ identical
unfolding scan place end_sample
scan-place c [] pos even s = ground (arith, segment_eq_refl c)
scan-place c (g ∷ gs) pos even s =
    ground (arith, scan-clear c g gs, segment_eq_refl c, scan-place c gs)

-- Repeating a successful insertion into ordered segments succeeds and changes nothing.
pub insert_again :
    (s : ℕ) (pcm : List ℕ) (gs hs : List Segment)
    → Ordered 0 gs
    → insert s pcm gs ≡ ok hs
    → insert s pcm hs ≡ ok hs
unfolding insert
insert_again s pcm gs hs v h =
    let (pos, even, how) = insert-eq-ok s pcm gs hs h in
    elim how [
      | inl (e, p) ↦
          ground (arith, insert-eq-place s pcm gs hs v p, scan-place (segment s pcm) gs pos even e)
      | inr (e, p) ↦ ground arith
    ]

-- Audio of whole samples, at least one, at positions where ordered segments hold nothing is
-- accepted.
pub insert_fresh :
    (s : ℕ) (pcm : List ℕ) (gs : List Segment)
    → 0 < length pcm
    → length pcm % 2 ≡ 0
    → Ordered 0 gs
    → ((k : ℕ) → Within k (segment s pcm) → byte_at k gs ≡ none)
    → (hs : List Segment) × (insert s pcm gs ≡ ok hs)
unfolding insert
insert_fresh s pcm gs pos even v h = (
  sort_by_start (gs ++ segment s pcm ∷ []),
  ground (arith, scan_fresh (segment s pcm) 0 gs pos even v h),
)

-- Audio of whole samples that differs, at a byte position that it covers, from what ordered
-- segments hold there is refused with the overlap error.
pub insert_conflict :
    (s k : ℕ) (pcm : List ℕ) (gs : List Segment) (b : ℕ)
    → 0 < length pcm
    → length pcm % 2 ≡ 0
    → Ordered 0 gs
    → Within k (segment s pcm)
    → byte_at k gs ≡ some b
    → get_elem? pcm (k - s * 2) ≢ some b
    → insert s pcm gs ≡ raise (value_error "non-identical enhanced audio overlap")
unfolding insert
insert_conflict s k pcm gs b pos even v h held differs =
    elim (Scan-cases (scan (segment s pcm) gs)) [
      | inl e ↦ absurd (ground (arith, scan-clear-none (segment s pcm) 0 gs k even v e h))
      | inr (inl e) ↦
          absurd (differs (ground (arith, overlay-identical (segment s pcm) 0 gs k pos even v e)))
      | inr (inr e) ↦ ground arith
    ]
