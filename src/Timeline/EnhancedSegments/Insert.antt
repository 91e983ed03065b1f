-- ===== src/Timeline/EnhancedSegments/Insert.antt =====
-- `insert` refines the update of the abstract timeline by the new bytes.
pub mod Outcomes
use vox_lattice.Base.{
  ℕ, suc, ◌+◌, ◌-◌, ◌*◌, ◌/◌, ◌%◌, ◌≤◌, ◌<◌, ◌≡◌, ◌≢◌, refl, sym, ap, ◌∙◌, ◌⊎◌, ◌↔◌, inl, inr, true,
  false, List, [], ◌∷◌, ◌++◌, ◌&&◌, ◌||◌, not, Option, none, some, Result, ok, raise, value_error,
  arith, ltb, leb, ◌==◌, if◌then◌else◌, length, get_elem?, append_assoc, append-nil, Bool-cases,
}
use vox_lattice.Timeline.EnhancedSegments.{
  Segment, end_sample, bytes_eq, segment_eq, Scan, clear, identical, conflict, scan, place,
  sort_onto, sort_by_start, insert,
}
use vox_lattice.Timeline.EnhancedSegments.Spec.{Ordered, byte_at, byte_at_before}

-- The bytes of one segment laid over a timeline.
abbrev pub overlay : Segment → (ℕ → Option ℕ) → ℕ → Option ℕ
overlay g old k =
    if leb (g.start_sample * 2) k && ltb k (g.start_sample * 2 + length g.pcm_s16le)
    then get_elem? g.pcm_s16le (k - g.start_sample * 2)
    else old k

pub scan-clear :
    (c g : Segment) (gs : List Segment)
    → scan c (g ∷ gs) ≡ clear
    → ((end_sample c ≤ g.start_sample) ⊎ (end_sample g ≤ c.start_sample)) × (scan c gs ≡ clear)
unfolding scan
scan-clear c g gs h = ground arith

bytes_eq_sound : (xs ys : List ℕ) → bytes_eq xs ys ≡ true → xs ≡ ys
unfolding bytes_eq
bytes_eq_sound [] [] h = refl
bytes_eq_sound [] (y ∷ ys) h = cc
bytes_eq_sound (x ∷ xs) [] h = cc
bytes_eq_sound (x ∷ xs) (y ∷ ys) h = ground (arith, bytes_eq_sound xs ys)

bytes_eq_refl : (xs : List ℕ) → bytes_eq xs xs ≡ true
unfolding bytes_eq
bytes_eq_refl [] = refl
bytes_eq_refl (x ∷ xs) = ground (arith, bytes_eq_refl xs)

Ordered-le :
    (lo : ℕ) (gs : List Segment) (g : Segment) (hs : List Segment)
    → Ordered lo (gs ++ g ∷ hs)
    → lo ≤ g.start_sample
unfolding end_sample
Ordered-le lo [] g hs v = v.0
Ordered-le lo (x ∷ gs) g hs v = omega (arith, Ordered-le (end_sample x) gs g hs v.3)

place-last :
    (lo : ℕ) (gs : List Segment) (g : Segment) (hs : List Segment)
    → Ordered lo (gs ++ g ∷ hs)
    → place g gs ≡ gs ++ g ∷ []
unfolding place end_sample
place-last lo [] g hs v = refl
place-last lo (x ∷ gs) g hs v =
    ground (arith, Ordered-le (end_sample x) gs g hs v.3, place-last (end_sample x) gs g hs v.3)

-- Sorting a sorted list with one more segment behind it places that segment.
sort_onto-place :
    (lo : ℕ) (done gs : List Segment) (c : Segment)
    → Ordered lo (done ++ gs)
    → sort_onto done (gs ++ c ∷ []) ≡ place c (done ++ gs)
unfolding sort_onto
sort_onto-place lo done [] c v = rw append-nil
sort_onto-place lo done (g ∷ gs) c v =
    let e : (done ++ g ∷ []) ++ gs ≡ done ++ g ∷ gs = append_assoc done (g ∷ []) gs in
    ap (λ l. sort_onto l (gs ++ c ∷ [])) (place-last lo done g gs v)
    ∙ sort_onto-place lo (done ++ g ∷ []) gs c (rw e v)
    ∙ ap (place c) e

pub place-Ordered :
    (c : Segment) (lo : ℕ) (gs : List Segment)
    → lo ≤ c.start_sample
    → 0 < length c.pcm_s16le
    → length c.pcm_s16le % 2 ≡ 0
    → Ordered lo gs
    → scan c gs ≡ clear
    → Ordered lo (place c gs)
unfolding place end_sample
place-Ordered c lo [] low pos even v s = (low, pos, even, tt)
place-Ordered c lo (g ∷ gs) low pos even v s =
    ground (arith, scan-clear c g gs, place-Ordered c (end_sample g) gs)

byte_at-place :
    (c : Segment) (lo : ℕ) (gs : List Segment) (k : ℕ)
    → 0 < length c.pcm_s16le
    → length c.pcm_s16le % 2 ≡ 0
    → Ordered lo gs
    → scan c gs ≡ clear
    → byte_at k (place c gs) ≡ overlay c (λ j. byte_at j gs) k
unfolding place end_sample byte_at
byte_at-place c lo [] k pos even v s = refl
byte_at-place c lo (g ∷ gs) k pos even v s =
    ground (arith, scan-clear c g gs, byte_at-place c (end_sample g) gs k)

segment_eq_sound : (a b : Segment) → segment_eq a b ≡ true → a ≡ b
unfolding segment_eq
segment_eq_sound a b h = ground (arith, bytes_eq_sound a.pcm_s16le b.pcm_s16le)

pub segment_eq_refl : (a : Segment) → segment_eq a a ≡ true
unfolding segment_eq
segment_eq_refl a = ground (arith, bytes_eq_refl a.pcm_s16le)

-- A segment that is already there changes nothing when it is laid over.
pub overlay-identical :
    (c : Segment) (lo : ℕ) (gs : List Segment) (k : ℕ)
    → 0 < length c.pcm_s16le
    → length c.pcm_s16le % 2 ≡ 0
    → Ordered lo gs
    → scan c gs ≡ identical
    → byte_at k gs ≡ overlay c (λ j. byte_at j gs) k
unfolding scan end_sample byte_at
overlay-identical c lo [] k pos even v s = cc
overlay-identical c lo (g ∷ gs) k pos even v s =
    ground (arith, segment_eq_sound c g, overlay-identical c (end_sample g) gs k)

abbrev pub segment : ℕ → List ℕ → Segment
segment s pcm = record { start_sample = s; pcm_s16le = pcm }

-- What a successful insert did.
pub insert-eq-ok :
    (s : ℕ) (pcm : List ℕ) (gs hs : List Segment)
    → insert s pcm gs ≡ ok hs
    → (0 < length pcm)
      × (length pcm % 2 ≡ 0)
      × (((scan (segment s pcm) gs ≡ clear) × (hs ≡ sort_by_start (gs ++ segment s pcm ∷ [])))
          ⊎ ((scan (segment s pcm) gs ≡ identical) × (hs ≡ gs)))
unfolding insert
insert-eq-ok s pcm gs hs h = ground arith

pub insert-eq-place :
    (s : ℕ) (pcm : List ℕ) (gs hs : List Segment)
    → Ordered 0 gs
    → hs ≡ sort_by_start (gs ++ segment s pcm ∷ [])
    → hs ≡ place (segment s pcm) gs
unfolding sort_by_start
insert-eq-place s pcm gs hs v e = e ∙ sort_onto-place 0 [] gs (segment s pcm) v

-- A successful insertion into ordered segments gives ordered segments, whose map from byte
-- positions to bytes is the old one overlaid with the new audio.
pub insert_refines :
    (s : ℕ) (pcm : List ℕ) (gs hs : List Segment)
    → Ordered 0 gs
    → insert s pcm gs ≡ ok hs
    → Ordered 0 hs × ((k : ℕ) → byte_at k hs ≡ overlay (segment s pcm) (λ j. byte_at j gs) k)
insert_refines s pcm gs hs v h =
    let (pos, even, how) = insert-eq-ok s pcm gs hs h in
    let c : Segment = segment s pcm in
    elim how [
      | inl (s, e) ↦ rw (insert-eq-place c.start_sample pcm gs hs v e) (
        place-Ordered c 0 gs (omega arith) pos even v s,
        λ k. byte_at-place c 0 gs k pos even v s,
      )
      | inr (s, e) ↦ rw e (v, λ k. overlay-identical c 0 gs k pos even v s)
    ]
