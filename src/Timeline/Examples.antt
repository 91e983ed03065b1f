-- ===== src/Timeline/Examples.antt =====
-- Tests of the timeline.
use vox_lattice.Base.{
  ◌+◌, ◌↔◌, max, min, ◌%◌, ◌/◌, length, ℕ, ◌*◌, ◌≡◌, refl, none, List, [], ◌∷◌, ltb, ok, raise,
  value_error, if◌then◌else◌, arith,
}
use vox_lattice.Timeline.ContiguousPcm
use vox_lattice.Timeline.ContiguousPcm.{ContiguousPcm}
use vox_lattice.Timeline.ContiguousPcm.Window.{
  Window, append-Window, discard_before-Window, read-Window,
}
use vox_lattice.Timeline.EnhancedSegments.{Segment, end_sample, scan, insert, read, discard_before}
use vox_lattice.Timeline.EnhancedSegments.Spec.{Ordered, byte_at, gather}
use vox_lattice.Timeline.EnhancedSegments.Insert.{overlay, segment, insert_refines}
use vox_lattice.Timeline.EnhancedSegments.Insert.Outcomes.{
  insert_again, insert_fresh, insert_conflict, Within,
}
use vox_lattice.Timeline.EnhancedSegments.Read.{read-gather}
use vox_lattice.Timeline.EnhancedSegments.Discard.{discard_before_refines}

-- Two samples at 10 and one at 20.
abbrev held : List Segment
held = segment 10 (1 ∷ 2 ∷ 3 ∷ 4 ∷ []) ∷ segment 20 (5 ∷ 6 ∷ []) ∷ []

held-Ordered : Ordered 0 held
unfolding end_sample
held-Ordered = (omega arith, omega arith, refl, (omega arith, omega arith, refl, tt))

abbrev more : List Segment
more = segment 10 (1 ∷ 2 ∷ 3 ∷ 4 ∷ []) ∷ segment 12 (7 ∷ 8 ∷ []) ∷ segment 20 (5 ∷ 6 ∷ []) ∷ []

inserted : insert 12 (7 ∷ 8 ∷ []) held ≡ ok more
unfolding insert scan
inserted = refl

insert_refines_example :
    Ordered 0 more
    × ((k : ℕ) → byte_at k more ≡ overlay (segment 12 (7 ∷ 8 ∷ [])) (λ j. byte_at j held) k)
insert_refines_example = insert_refines 12 (7 ∷ 8 ∷ []) held more held-Ordered inserted

insert_again_example : insert 12 (7 ∷ 8 ∷ []) more ≡ ok more
insert_again_example = insert_again 12 (7 ∷ 8 ∷ []) held more held-Ordered inserted

insert_conflict_example :
    insert 10 (9 ∷ 9 ∷ []) held ≡ raise (value_error "non-identical enhanced audio overlap")
unfolding byte_at
insert_conflict_example =
    insert_conflict 10 20 (9 ∷ 9 ∷ []) held 1 (omega arith) refl held-Ordered
      (omega arith, omega arith) refl (λ e. absurd (ground arith))

free : (k : ℕ) → Within k (segment 12 (7 ∷ 8 ∷ [])) → byte_at k held ≡ none
unfolding byte_at
free k w = ground (arith, w.0, w.1)

insert_fresh_example : (hs : List Segment) × (insert 12 (7 ∷ 8 ∷ []) held ≡ ok hs)
insert_fresh_example = insert_fresh 12 (7 ∷ 8 ∷ []) held (omega arith) refl held-Ordered free

read-gather_example : read 10 2 held ≡ gather (2 * 2) (10 * 2) held
read-gather_example = read-gather 10 2 held (omega arith) held-Ordered

discard_before_refines_example :
    Ordered 0 (discard_before 11 held)
    × ((k : ℕ)
        → byte_at k (discard_before 11 held) ≡ (if ltb k (11 * 2) then none else byte_at k held))
discard_before_refines_example = discard_before_refines 11 held held-Ordered

-- Three samples from 5 on, of which the first was discarded.
abbrev buffer : ContiguousPcm
buffer = record { start_sample = 6; bytes = 3 ∷ 4 ∷ 5 ∷ 6 ∷ [] }

buffer-Window : Window 5 (1 ∷ 2 ∷ 3 ∷ 4 ∷ 5 ∷ 6 ∷ []) buffer
buffer-Window = record { even = refl; after = omega arith; within = omega arith; view = refl }

append-Window_example :
    (ContiguousPcm.append 8 (7 ∷ 8 ∷ []) buffer
      ≡ ok (record buffer { bytes = 3 ∷ 4 ∷ 5 ∷ 6 ∷ 7 ∷ 8 ∷ [] }))
    ↔ ((8 ≡ 5 + length {A = ℕ} (1 ∷ 2 ∷ 3 ∷ 4 ∷ 5 ∷ 6 ∷ []) / 2)
        × (length {A = ℕ} (7 ∷ 8 ∷ []) % 2 ≡ 0)
        × (◌≡◌ {A = ℕ} 6 6)
        × Window 5
            (1 ∷ 2 ∷ 3 ∷ 4 ∷ 5 ∷ 6 ∷ 7 ∷ 8 ∷ [])
            (record buffer { bytes = 3 ∷ 4 ∷ 5 ∷ 6 ∷ 7 ∷ 8 ∷ [] }))
append-Window_example =
    append-Window 8 (7 ∷ 8 ∷ []) 5 (1 ∷ 2 ∷ 3 ∷ 4 ∷ 5 ∷ 6 ∷ []) buffer
      (record buffer { bytes = 3 ∷ 4 ∷ 5 ∷ 6 ∷ 7 ∷ 8 ∷ [] }) buffer-Window

discard_before-Window_example :
    ((ContiguousPcm.discard_before 7 buffer).start_sample
      ≡ max 6 (min 7 (5 + length {A = ℕ} (1 ∷ 2 ∷ 3 ∷ 4 ∷ 5 ∷ 6 ∷ []) / 2)))
    × (ContiguousPcm.end_sample (ContiguousPcm.discard_before 7 buffer)
        ≡ 5 + length {A = ℕ} (1 ∷ 2 ∷ 3 ∷ 4 ∷ 5 ∷ 6 ∷ []) / 2)
    × Window 5 (1 ∷ 2 ∷ 3 ∷ 4 ∷ 5 ∷ 6 ∷ []) (ContiguousPcm.discard_before 7 buffer)
discard_before-Window_example =
    discard_before-Window 7 5 (1 ∷ 2 ∷ 3 ∷ 4 ∷ 5 ∷ 6 ∷ []) buffer buffer-Window

read-Window_example : ContiguousPcm.read 7 1 buffer ≡ ok (5 ∷ 6 ∷ [])
unfolding ContiguousPcm.end_sample
read-Window_example = read-Window 7 1 {c = buffer} buffer-Window (omega arith) (omega arith)
