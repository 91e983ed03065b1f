-- ===== src/Timeline/EnhancedSegments.antt =====
-- packages/livekit-plugins-fastenhancer/livekit/plugins/fastenhancer/timeline.py, `Segment` and
-- `EnhancedSegments`: received enhanced audio, as segments sorted by their first sample.
pub mod Spec
pub mod Insert
pub mod Read
pub mod Discard
use vox_lattice.Base.{
  ℕ, ◌+◌, ◌-◌, ◌*◌, ◌/◌, ◌%◌, min, Bool, true, false, List, [], ◌∷◌, ◌++◌, ◌||◌, ◌&&◌, not, Option,
  none, some, Result, ok, raise, value_error, ltb, leb, ◌==◌, if◌then◌else◌, length, take, drop,
}

pub record Segment : Type 0 where
  pub start_sample : ℕ
  pub pcm_s16le : List ℕ

unfoldable pub end_sample : Segment → ℕ
end_sample g = g.start_sample + length g.pcm_s16le / 2

pub bytes_eq : List ℕ → List ℕ → Bool
bytes_eq [] [] = true
bytes_eq (x ∷ xs) (y ∷ ys) = x == y && bytes_eq xs ys
bytes_eq _ _ = false

-- `candidate == existing`: a frozen dataclass compares its fields.
pub segment_eq : Segment → Segment → Bool
segment_eq a b = a.start_sample == b.start_sample && bytes_eq a.pcm_s16le b.pcm_s16le

-- How the loop of `insert` ends: with no overlap, by its `return`, or by its `raise`.
pub data Scan : Type 0 where
  clear identical conflict : Scan

unfoldable pub scan : Segment → List Segment → Scan
unfolding end_sample segment_eq bytes_eq
scan candidate [] = clear
scan candidate (existing ∷ rest) =
    if leb (end_sample candidate) existing.start_sample
      || leb (end_sample existing) candidate.start_sample
    then scan candidate rest
    else if segment_eq candidate existing
    then identical
    else conflict

-- `list.sort(key=...)` is stable: equal keys keep their order.
pub place : Segment → List Segment → List Segment
place g [] = g ∷ []
place g (e ∷ es) = if ltb g.start_sample e.start_sample then g ∷ e ∷ es else e ∷ place g es

pub sort_onto : List Segment → List Segment → List Segment
sort_onto sorted [] = sorted
sort_onto sorted (g ∷ gs) = sort_onto (place g sorted) gs

pub sort_by_start : List Segment → List Segment
unfolding place sort_onto
sort_by_start segments = sort_onto [] segments

-- `self._segments` after `insert`, or its exception
unfoldable pub insert : ℕ → List ℕ → List Segment → Result (List Segment)
unfolding sort_by_start
insert start_sample pcm_s16le segments =
    if length pcm_s16le == 0 || not (length pcm_s16le % 2 == 0)
    then raise (value_error "enhanced PCM must have positive even byte length")
    else (let candidate : Segment = record { start_sample = start_sample; pcm_s16le = pcm_s16le } in
        elim (scan candidate segments) [
          | clear ↦ ok (sort_by_start (segments ++ candidate ∷ []))
          | identical ↦ ok segments
          | conflict ↦ raise (value_error "non-identical enhanced audio overlap")
        ])

-- The loop of `read`, over `cursor` and `output`.
unfoldable pub read_from : ℕ → ℕ → List ℕ → List Segment → Option (List ℕ)
unfolding end_sample
read_from cursor end output [] = none
read_from cursor end output (segment ∷ rest) =
    let begin = (cursor - segment.start_sample) * 2 in
    let count = min (end_sample segment) end - cursor in
    let longer = output ++ take (count * 2) (drop begin segment.pcm_s16le) in
    let skipped = read_from cursor end output rest in
    let continued = read_from (cursor + count) end longer rest in
    if leb (end_sample segment) cursor
    then skipped
    else if ltb cursor segment.start_sample
    then none
    else if cursor + count == end
    then some longer
    else continued

unfoldable pub read : ℕ → ℕ → List Segment → Option (List ℕ)
read start_sample sample_count segments =
    read_from start_sample (start_sample + sample_count) [] segments

unfoldable pub discard_before : ℕ → List Segment → List Segment
unfolding end_sample
discard_before sample [] = []
discard_before sample (segment ∷ rest) =
    let retained = discard_before sample rest in
    if leb (end_sample segment) sample
    then retained
    else if ltb segment.start_sample sample
    then (let begin = (sample - segment.start_sample) * 2 in
        record { start_sample = sample; pcm_s16le = drop begin segment.pcm_s16le } ∷ retained)
    else segment ∷ retained
