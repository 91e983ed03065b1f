-- ===== src/Plugin/Processor/Effects.antt =====
-- The invariant of the processor: the raw timeline holds the samples between the two cursors. The
-- last block of `_process`.
use vox_lattice.Base.{
  ℕ, ◌+◌, ◌-◌, ◌*◌, ◌/◌, ◌%◌, ◌≤◌, ◌<◌, min, ◌≡◌, refl, sym, ◌∙◌, inl, inr, true, false, Bool-cases,
  none, some, Option-cases, List, [], ◌++◌, ok, ◌==◌, arith, length, take, length-take, length-drop,
  length-append,
}
use vox_lattice.Timeline.ContiguousPcm
use vox_lattice.Timeline.ContiguousPcm.{ContiguousPcm}
use vox_lattice.Timeline.ContiguousPcm.Window.{discard_before_bounds}
use vox_lattice.Timeline.EnhancedSegments
use vox_lattice.Timeline.EnhancedSegments.{Segment}
use vox_lattice.Timeline.EnhancedSegments.Spec.{Ordered, gather, length-gather}
use vox_lattice.Timeline.EnhancedSegments.Read.{read-gather}
use vox_lattice.Timeline.EnhancedSegments.Discard.{discard_before_refines}
use vox_lattice.Plugin.Processor.{Processor, PluginMetrics, due, moved_on, emit}

-- The raw timeline is the samples from `a` to `b`.
pub record Holds (a b : ℕ) (raw : ContiguousPcm) : Type 0 where
  pub starts : raw.start_sample ≡ a
  pub ends : ContiguousPcm.end_sample raw ≡ b
  pub whole : length raw.bytes % 2 ≡ 0

pub record Inv (p : Processor) : Type 0 where
  pub behind : p.output_cursor ≤ p.input_cursor
  pub ordered : Ordered 0 p.enhanced
  pub at_rest : p.enabled ≡ false → p.output_cursor ≡ p.input_cursor
  pub holds : p.closed ≡ false → p.enabled ≡ true → Holds p.output_cursor p.input_cursor p.raw

pub clear_at-Holds : (n : ℕ) (raw : ContiguousPcm) → Holds n n (ContiguousPcm.clear_at n raw)
unfolding ContiguousPcm.clear_at ContiguousPcm.end_sample
clear_at-Holds n raw = record { starts = refl; ends = omega arith; whole = refl }

pub append-Holds :
    (a b : ℕ) (raw : ContiguousPcm) (pcm : List ℕ) (n : ℕ)
    → Holds a b raw
    → length pcm ≡ n * 2
    → (raw' : ContiguousPcm) × (ContiguousPcm.append b pcm raw ≡ ok raw') × Holds a (b + n) raw'
unfolding ContiguousPcm.append ContiguousPcm.end_sample
append-Holds a b raw pcm n h size = (
  record raw { bytes = raw.bytes ++ pcm },
  ground (arith, h.ends, size),
  record {
    starts = h.starts;
    ends = omega (arith, h.ends, h.whole, size, length-append raw.bytes pcm);
    whole = omega (arith, h.whole, size, length-append raw.bytes pcm);
  },
)

discard_before_whole :
    (s : ℕ) (raw : ContiguousPcm)
    → length raw.bytes % 2 ≡ 0
    → length (ContiguousPcm.discard_before s raw).bytes % 2 ≡ 0
unfolding ContiguousPcm.discard_before
discard_before_whole s raw h =
    ground (arith, length-drop (min (s - raw.start_sample) (length raw.bytes / 2) * 2) raw.bytes)

discard_before-Holds :
    (a b n : ℕ) (raw : ContiguousPcm)
    → Holds a b raw
    → a + n ≤ b
    → Holds (a + n) b (ContiguousPcm.discard_before (a + n) raw)
discard_before-Holds a b n raw h fits =
    let (start, end) = discard_before_bounds (a + n) raw h.whole (omega (arith, h.ends)) in
    record {
      starts = omega (arith, start, h.starts);
      ends = end ∙ h.ends;
      whole = discard_before_whole (a + n) raw h.whole;
    }

read-Holds :
    (a b n : ℕ) (raw : ContiguousPcm)
    → Holds a b raw
    → a + n ≤ b
    → ContiguousPcm.read a n raw ≡ ok (take (n * 2) raw.bytes)
unfolding ContiguousPcm.read
read-Holds a b n raw h fits = ground (arith, h.starts, h.ends)

length-take-Holds :
    (a b n : ℕ) (raw : ContiguousPcm)
    → Holds a b raw
    → a + n ≤ b
    → length (take (n * 2) raw.bytes) ≡ n * 2
unfolding ContiguousPcm.end_sample
length-take-Holds a b n raw h fits = omega (arith, h.starts, h.ends, length-take (n * 2) raw.bytes)

moved_on-Inv :
    (n : ℕ) (m : PluginMetrics) (p : Processor)
    → Inv p
    → n ≤ p.input_cursor - p.output_cursor
    → Inv (moved_on n m p)
moved_on-Inv n m p i fits = record {
  behind = omega (arith, i.behind);
  ordered = (discard_before_refines (p.output_cursor + n) p.enhanced i.ordered).0;
  at_rest = λ e. omega (arith, i.at_rest e);
  holds = λ c e.
      discard_before-Holds p.output_cursor p.input_cursor n p.raw (i.holds c e)
        (omega (arith, i.behind));
}

-- What the last block of `_process` puts out: the enhanced audio where all of it is there, and the raw
-- audio otherwise.
pub data Source (p : Processor) (n : ℕ) (out : List ℕ) : Type 0 where
  nothing_due : n ≡ 0 → out ≡ [] → Source p n out
  from_server : 0 < n → gather (n * 2) (p.output_cursor * 2) p.enhanced ≡ some out → Source p n out
  from_raw :
      0 < n
      → gather (n * 2) (p.output_cursor * 2) p.enhanced ≡ none
      → out ≡ take (n * 2) p.raw.bytes
      → Source p n out

-- The last block of `_process` never raises on an open processor.
pub emit_lem :
    (count : ℕ) (p : Processor)
    → Inv p
    → p.closed ≡ false
    → (q : Processor) × (out : List ℕ) × (emit count p ≡ ok (q, out))
      × Inv q
      × (q.output_cursor ≡ p.output_cursor + due count p)
      × (q.input_cursor ≡ p.input_cursor)
      × (length out ≡ due count p * 2)
      × Source p (due count p) out
unfolding emit
emit_lem count p i open_ =
    let d : ℕ = due count p in
    let fits : d ≤ p.input_cursor - p.output_cursor = omega arith in
    elim (Bool-cases (d == 0)) [
      | inl z ↦
          let m : PluginMetrics = record p.metrics {
            enhanced_samples = p.metrics.enhanced_samples + d;
          } in
          (
            moved_on d m p,
            [],
            ground (arith, z),
            moved_on-Inv d m p i fits,
            refl,
            refl,
            ground (arith, z),
            nothing_due (ground (arith, z)) refl,
          )
      | inr some_due ↦
          let pos : 0 < d = ground (arith, some_due) in
          let same = read-gather p.output_cursor d p.enhanced pos i.ordered in
          elim (Option-cases (EnhancedSegments.read p.output_cursor d p.enhanced)) [
            | inr (out, e) ↦
                let m : PluginMetrics = record p.metrics {
                  enhanced_samples = p.metrics.enhanced_samples + d;
                } in
                let g : gather (d * 2) (p.output_cursor * 2) p.enhanced ≡ some out = sym same ∙ e in
                (
                  moved_on d m p,
                  out,
                  ground (arith, some_due, e),
                  moved_on-Inv d m p i fits,
                  refl,
                  refl,
                  length-gather (d * 2) (p.output_cursor * 2) p.enhanced out g,
                  from_server pos g,
                )
            | inl e ↦
                let m : PluginMetrics = record p.metrics {
                  raw_fallback_samples = p.metrics.raw_fallback_samples + d;
                } in
                let h : Holds p.output_cursor p.input_cursor p.raw =
                  i.holds open_ (ground (arith, i.at_rest, pos)) in
                let r =
                  read-Holds p.output_cursor p.input_cursor d p.raw h (omega (arith, i.behind)) in
                (
                  moved_on d m p,
                  take (d * 2) p.raw.bytes,
                  ground (arith, some_due, e, r),
                  moved_on-Inv d m p i fits,
                  refl,
                  refl,
                  length-take-Holds p.output_cursor p.input_cursor d p.raw h
                      (omega (arith, i.behind)),
                  from_raw pos (sym same ∙ e) refl,
                )
          ]
    ]
