-- ===== src/Timeline/EnhancedSegments/Read.antt =====
-- `read` returns the bytes of the abstract timeline, or nothing if one of them is missing.
use vox_lattice.Base.{
  ℕ, zero, suc, ◌+◌, ◌-◌, ◌*◌, ◌%◌, ◌≤◌, ◌<◌, min, ◌≡◌, refl, sym, ap, ◌∙◌, List, [], ◌∷◌, ◌++◌,
  Option, none, some, arith, length, take, drop, append-nil, append_assoc, get_elem?_of_lt,
  drop-cons,
}
use vox_lattice.Timeline.EnhancedSegments.{Segment, end_sample, read_from, read}
use vox_lattice.Timeline.EnhancedSegments.Spec.{Ordered, byte_at, byte_at_before, gather}

-- Bytes put before an optional rest.
abbrev prefix : List ℕ → Option (List ℕ) → Option (List ℕ)
prefix xs none = none
prefix xs (some ys) = some (xs ++ ys)

prefix-nil : (o : Option (List ℕ)) → prefix [] o ≡ o
prefix-nil none = refl
prefix-nil (some xs) = refl

gather-skip :
    (n k : ℕ) (g : Segment) (gs : List Segment)
    → g.start_sample * 2 + length g.pcm_s16le ≤ k
    → gather n k (g ∷ gs) ≡ gather n k gs
unfolding gather byte_at
gather-skip zero k g gs h = refl
gather-skip (suc n) k g gs h = ground (arith, gather-skip n (suc k) g gs)

gather_inside :
    (n m k : ℕ) (g : Segment) (gs : List Segment)
    → g.start_sample * 2 ≤ k
    → k + n ≤ g.start_sample * 2 + length g.pcm_s16le
    → gather (n + m) k (g ∷ gs)
      ≡ prefix (take n (drop (k - g.start_sample * 2) g.pcm_s16le)) (gather m (k + n) (g ∷ gs))
unfolding gather byte_at
gather_inside zero m k g gs low high =
    let e : k + 0 ≡ k = omega arith in
    let f : 0 + m ≡ m = omega arith in rw (e, f) (sym (prefix-nil (gather m k (g ∷ gs))))
gather_inside (suc n) m k g gs low high =
    let i : ℕ = k - g.start_sample * 2 in
    let (b, e) = get_elem?_of_lt g.pcm_s16le i (omega arith) in
    let j : suc i ≡ suc k - g.start_sample * 2 = omega arith in
    let d : drop i g.pcm_s16le ≡ b ∷ drop (suc k - g.start_sample * 2) g.pcm_s16le =
      drop-cons i g.pcm_s16le e ∙ ap (λ x. b ∷ drop x g.pcm_s16le) j in
    let p : suc n + m ≡ suc (n + m) = omega arith in
    let q : k + suc n ≡ suc k + n = omega arith in
    rw (p, q, d) (ground (arith, e, gather_inside n m (suc k) g gs (omega arith) (omega arith)))

-- Where a position before the end is not held, nothing is gathered.
gather-none : (n k : ℕ) (gs : List Segment) → 0 < n → byte_at k gs ≡ none → gather n k gs ≡ none
unfolding gather
gather-none zero k gs h e = absurd (omega arith)
gather-none (suc n) k gs h e = rw (e, gather)

prefix_append :
    (xs ys : List ℕ) (o : Option (List ℕ)) → prefix (xs ++ ys) o ≡ prefix xs (prefix ys o)
prefix_append xs ys none = refl
prefix_append xs ys (some zs) = ap some (append_assoc xs ys zs)

-- The three ways in which the first segment can lie to the cursor.
gather_past :
    (n cursor : ℕ) (g : Segment) (gs : List Segment)
    → length g.pcm_s16le % 2 ≡ 0
    → end_sample g ≤ cursor
    → gather n (cursor * 2) (g ∷ gs) ≡ gather n (cursor * 2) gs
unfolding end_sample
gather_past n cursor g gs even h = gather-skip n (cursor * 2) g gs (omega arith)

gather_gap :
    (n lo cursor : ℕ) (g : Segment) (gs : List Segment)
    → 0 < n
    → Ordered lo (g ∷ gs)
    → cursor < g.start_sample
    → gather n (cursor * 2) (g ∷ gs) ≡ none
gather_gap n lo cursor g gs pos v h =
    gather-none n (cursor * 2) (g ∷ gs) pos (
      byte_at_before (cursor * 2) g.start_sample (g ∷ gs) (omega arith, v.1, v.2, v.3)
        (omega arith))

abbrev slice : ℕ → ℕ → Segment → List ℕ
slice cursor count g = take (count * 2) (drop ((cursor - g.start_sample) * 2) g.pcm_s16le)

gather_take :
    (rest cursor count : ℕ) (g : Segment) (gs : List Segment)
    → length g.pcm_s16le % 2 ≡ 0
    → g.start_sample ≤ cursor
    → cursor + count ≤ end_sample g
    → gather (count * 2 + rest) (cursor * 2) (g ∷ gs)
      ≡ prefix (slice cursor count g) (gather rest ((cursor + count) * 2) (g ∷ gs))
unfolding end_sample
gather_take rest cursor count g gs even low high =
    let d : cursor * 2 - g.start_sample * 2 ≡ (cursor - g.start_sample) * 2 = omega arith in
    let k : cursor * 2 + count * 2 ≡ (cursor + count) * 2 = omega arith in
    rw (← d, ← k) (gather_inside (count * 2) rest (cursor * 2) g gs (omega arith) (omega arith))

-- The segment reaches the end, and the slice is the whole answer.
gather_last :
    (cursor end count : ℕ) (g : Segment) (gs : List Segment)
    → length g.pcm_s16le % 2 ≡ 0
    → g.start_sample ≤ cursor
    → cursor + count ≤ end_sample g
    → cursor + count ≡ end
    → gather ((end - cursor) * 2) (cursor * 2) (g ∷ gs) ≡ some (slice cursor count g)
unfolding gather
gather_last cursor end count g gs even low high e =
    let n : (end - cursor) * 2 ≡ count * 2 + 0 = omega arith in
    rw n
      (gather_take 0 cursor count g gs even low high ∙ ap some (append-nil (slice cursor count g)))

-- The segment ends before, and the rest is gathered from the others.
gather_more :
    (cursor end count : ℕ) (g : Segment) (gs : List Segment)
    → length g.pcm_s16le % 2 ≡ 0
    → g.start_sample ≤ cursor
    → cursor + count ≡ end_sample g
    → end_sample g ≤ end
    → gather ((end - cursor) * 2) (cursor * 2) (g ∷ gs)
      ≡ prefix
          (slice cursor count g)
          (gather ((end - (cursor + count)) * 2) ((cursor + count) * 2) gs)
gather_more cursor end count g gs even low high e =
    let rest : ℕ = (end - (cursor + count)) * 2 in
    let n : (end - cursor) * 2 ≡ count * 2 + rest = omega arith in
    rw n (
      gather_take rest cursor count g gs even low (omega arith)
      ∙ ap (prefix (slice cursor count g))
          (gather_past rest (cursor + count) g gs even (omega arith)))

-- The loop appends to `output` what it gathers from the cursor to the end.
read_from-gather :
    (lo cursor end : ℕ) (output : List ℕ) (gs : List Segment)
    → cursor < end
    → Ordered lo gs
    → read_from cursor end output gs ≡ prefix output (gather ((end - cursor) * 2) (cursor * 2) gs)
unfolding read_from
read_from-gather lo cursor end output [] h v = sym (
    ap (prefix output)
      (gather-none ((end - cursor) * 2) (cursor * 2) [] (omega arith) (unfold byte_at in refl)))
read_from-gather lo cursor end output (g ∷ gs) h v =
    let count : ℕ = min (end_sample g) end - cursor in
    let later : Option (List ℕ) = gather ((end - (cursor + count)) * 2) ((cursor + count) * 2) gs in
    ground (
      arith,
      gather_past ((end - cursor) * 2) cursor g gs v.2,
      gather_gap ((end - cursor) * 2) lo cursor g gs,
      gather_last cursor end count g gs v.2,
      gather_more cursor end count g gs v.2,
      prefix_append output (slice cursor count g) later,
      read_from-gather (end_sample g) cursor end output gs,
      read_from-gather (end_sample g) (cursor + count) end (output ++ slice cursor count g) gs,
    )

-- A read of at least one sample from ordered segments returns exactly the bytes that the map
-- holds at those positions, and nothing exactly when one of them is missing.
pub read-gather :
    (start count : ℕ) (gs : List Segment)
    → 0 < count
    → Ordered 0 gs
    → read start count gs ≡ gather (count * 2) (start * 2) gs
unfolding read
read-gather start count gs h v =
    let e : (start + count - start) * 2 ≡ count * 2 = omega arith in
    read_from-gather 0 start (start + count) [] gs (omega arith) v
    ∙ prefix-nil (gather ((start + count - start) * 2) (start * 2) gs)
    ∙ ap (λ n. gather n (start * 2) gs) e
