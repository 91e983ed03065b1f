-- ===== src/Timeline/ContiguousPcm/Window.antt =====
-- The buffer as a window on everything that was appended since it was last cleared.
use vox_lattice.Base.{
  ℕ, ◌+◌, ◌-◌, ◌*◌, ◌/◌, ◌%◌, ◌≤◌, ◌<◌, min, ◌≡◌, refl, sym, ap, ap₂, ◌∙◌, ◌↔◌, ◌⊎◌, inl, inr, List,
  [], ◌++◌, ok, raise, key_error, ◌==◌, arith, length, take, drop, length-drop, length-append,
  drop-drop, drop-nil, drop-append_of_le, max, Bool-cases,
}
use vox_lattice.Timeline.ContiguousPcm.{
  ContiguousPcm, init, end_sample, append, read, discard_before,
}

-- `history` holds the bytes of all samples from `origin` on; the buffer shows a suffix of it.
pub record Window (origin : ℕ) (history : List ℕ) (c : ContiguousPcm) : Type 0 where
  pub even : length history % 2 ≡ 0
  pub after : origin ≤ c.start_sample
  pub within : (c.start_sample - origin) * 2 ≤ length history
  pub view : c.bytes ≡ drop ((c.start_sample - origin) * 2) history

pub init-Window : (n : ℕ) → Window n [] (init n)
init-Window n = record {
  even = refl;
  after = omega arith;
  within = omega arith;
  view = sym (drop-nil ((n - n) * 2));
}

-- The end of the buffer is the end of the history.
pub end_sample-Window :
    {o : ℕ} {h : List ℕ} {c : ContiguousPcm} → Window o h c → end_sample c ≡ o + length h / 2
unfolding end_sample
end_sample-Window {o} {h} {c} w =
    let e : length c.bytes ≡ length h - (c.start_sample - o) * 2 =
      ap length w.view ∙ length-drop ((c.start_sample - o) * 2) h in
    omega (arith, w.after, w.within, w.even)

-- What a successful append did.
append-eq-ok :
    (s : ℕ) (pcm : List ℕ) (c d : ContiguousPcm)
    → append s pcm c ≡ ok d
    → (s ≡ end_sample c) × (length pcm % 2 ≡ 0) × (d ≡ record c { bytes = c.bytes ++ pcm })
unfolding append
append-eq-ok s pcm c d e = ground arith

append-Window_ok :
    (s : ℕ) (pcm : List ℕ) {o : ℕ} {h : List ℕ} {c d : ContiguousPcm}
    → Window o h c
    → append s pcm c ≡ ok d
    → Window o (h ++ pcm) d
append-Window_ok s pcm {o} {h} {c} {d} w e =
    let (at, even, made) = append-eq-ok s pcm c d e in
    let k : ℕ = (c.start_sample - o) * 2 in
    rw made (record {
      even = omega (arith, w.even, even, length-append h pcm);
      after = w.after;
      within = omega (arith, w.within, length-append h pcm);
      view = rw (drop-append_of_le k h pcm w.within, ← w.view);
    })

-- A window with the same start on the longer history is the buffer with the new bytes.
append-Window_bytes :
    (pcm : List ℕ) {o : ℕ} {h : List ℕ} {c d : ContiguousPcm}
    → Window o h c
    → d.start_sample ≡ c.start_sample
    → Window o (h ++ pcm) d
    → d ≡ record c { bytes = c.bytes ++ pcm }
append-Window_bytes pcm {o} {h} {c} {d} w start v =
    let k : ℕ = (c.start_sample - o) * 2 in
    let bytes : d.bytes ≡ c.bytes ++ pcm =
      v.view
      ∙ ap (λ n. drop ((n - o) * 2) (h ++ pcm)) start
      ∙ drop-append_of_le k h pcm w.within
      ∙ ap (λ l. l ++ pcm) (sym w.view) in
    ap₂ (λ n l. record { start_sample = n; bytes = l }) start bytes

append_ok :
    (s : ℕ) (pcm : List ℕ) (c : ContiguousPcm)
    → s ≡ end_sample c
    → length pcm % 2 ≡ 0
    → append s pcm c ≡ ok (record c { bytes = c.bytes ++ pcm })
unfolding append
append_ok s pcm c at even = ground (arith, at, even)

-- When the buffer shows a suffix of a history of samples, an append succeeds with a certain
-- buffer exactly when the audio is whole samples that start where the history ends, and that
-- buffer has the old start and shows a suffix of the history extended by the audio.
pub append-Window :
    (s : ℕ) (pcm : List ℕ) (o : ℕ) (h : List ℕ) (c d : ContiguousPcm)
    → Window o h c
    → (append s pcm c ≡ ok d) ↔ (
        (s ≡ o + length h / 2)
        × (length pcm % 2 ≡ 0)
        × (d.start_sample ≡ c.start_sample)
        × Window o (h ++ pcm) d)
append-Window s pcm o h c d w = (
  (λ e.
      let (at, even, made) = append-eq-ok s pcm c d e in
      (at ∙ end_sample-Window w, even, ap (λ x. x.start_sample) made, append-Window_ok s pcm w e)),
  (λ p.
      append_ok s pcm c (p.0 ∙ sym (end_sample-Window w)) p.1
      ∙ ap ok (sym (append-Window_bytes pcm w p.2 p.3))),
)

-- The same history stays.
discard_before-Window_same :
    (s : ℕ) {o : ℕ} {h : List ℕ} {c : ContiguousPcm}
    → Window o h c
    → Window o h (discard_before s c)
unfolding discard_before
discard_before-Window_same s {o} {h} {c} w =
    let r : ℕ = min (s - c.start_sample) (length c.bytes / 2) in
    let l : length c.bytes ≡ length h - (c.start_sample - o) * 2 =
      ap length w.view ∙ length-drop ((c.start_sample - o) * 2) h in
    elim (Bool-cases (r == 0)) [
      | inl e ↦ rw e w
      | inr e ↦
          let q : (c.start_sample - o) * 2 + r * 2 ≡ (c.start_sample + r - o) * 2 =
            omega (arith, w.after) in
          rw e (record {
            even = w.even;
            after = omega (arith, w.after);
            within = omega (arith, w.within, w.after);
            view =
                ap (drop (r * 2)) w.view
                ∙ drop-drop (r * 2) ((c.start_sample - o) * 2) h
                ∙ ap (λ k. drop k h) q;
          })
    ]

discard_before_start :
    (s : ℕ) (c : ContiguousPcm)
    → (discard_before s c).start_sample
      ≡ max c.start_sample (min s (c.start_sample + length c.bytes / 2))
unfolding discard_before
discard_before_start s c = ground arith

-- When the buffer shows a suffix of a history of samples, discarding before a sample keeps it
-- a suffix of the same history with the same end, which now starts at that sample, or at the
-- end when the sample is behind it, or where it did when that is later.
pub discard_before-Window :
    (s o : ℕ) (h : List ℕ) (c : ContiguousPcm)
    → Window o h c
    → ((discard_before s c).start_sample ≡ max c.start_sample (min s (o + length h / 2)))
      × (end_sample (discard_before s c) ≡ o + length h / 2)
      × Window o h (discard_before s c)
unfolding end_sample
discard_before-Window s o h c w =
    let v : Window o h (discard_before s c) = discard_before-Window_same s w in
    (
      discard_before_start s c ∙ ap (λ e. max c.start_sample (min s e)) (end_sample-Window w),
      end_sample-Window v,
      v,
    )

-- Discarding before a sample that is not behind the end moves the start to that sample, unless
-- it was there or later already, and leaves the end in place.
pub discard_before_bounds :
    (s : ℕ) (c : ContiguousPcm)
    → length c.bytes % 2 ≡ 0
    → s ≤ end_sample c
    → ((discard_before s c).start_sample ≡ max s c.start_sample)
      × (end_sample (discard_before s c) ≡ end_sample c)
unfolding discard_before end_sample
discard_before_bounds s c even h =
    ground (arith, length-drop (min (s - c.start_sample) (length c.bytes / 2) * 2) c.bytes)

-- When the buffer shows a suffix of a history of samples, a read inside the buffer succeeds
-- and returns the bytes of the history at those samples.
pub read-Window :
    (s n : ℕ) {o : ℕ} {h : List ℕ} {c : ContiguousPcm}
    → Window o h c
    → c.start_sample ≤ s
    → s + n ≤ end_sample c
    → read s n c ≡ ok (take (n * 2) (drop ((s - o) * 2) h))
unfolding read
read-Window s n {o} {h} {c} w low high =
    let q : (c.start_sample - o) * 2 + (s - c.start_sample) * 2 ≡ (s - o) * 2 =
      omega (arith, w.after) in
    let v : drop ((s - c.start_sample) * 2) c.bytes ≡ drop ((s - o) * 2) h =
      ap (drop ((s - c.start_sample) * 2)) w.view
      ∙ drop-drop ((s - c.start_sample) * 2) ((c.start_sample - o) * 2) h
      ∙ ap (λ k. drop k h) q in
    ground (arith, v)

-- A read that starts before the buffer or ends after it raises the key error.
pub read_outside :
    (s n : ℕ) (c : ContiguousPcm)
    → (s < c.start_sample) ⊎ (end_sample c < s + n)
    → read s n c ≡ raise (key_error "requested raw range is unavailable")
unfolding read
read_outside s n c h = ground arith
