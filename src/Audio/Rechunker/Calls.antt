-- ===== src/Audio/Rechunker/Calls.antt =====
-- What `append` and `flush_partial` return, in full.
use vox_lattice.Base.{
  ℕ, suc, ◌+◌, ◌-◌, ◌/◌, ◌≤◌, ◌<◌, ◌≡◌, refl, sym, ap, ◌∙◌, inl, inr, true, false, Option, none,
  some, List, [], ◌∷◌, ◌++◌, append-nil, Result, ok, raise, buffer_error, >>=-eq-ok, ltb, ltb→lt,
  ◌==◌, if◌then◌else◌, arith, Bool-cases, length, take, drop, replicate, length-append, length-drop,
  length-replicate, take_of_length-le, take-append_of_le,
}
use mathlib.Core.Path.{subst₂}
use vox_lattice.Audio.Pcm.{Float32, pcm16le_to_float32, length-pcm16le_to_float32}
use vox_lattice.Audio.Rechunker.{
  hop_samples, SourceHop, PcmRechunker, drain_full_hops, append, flush_partial,
}
use vox_lattice.Audio.Rechunker.Hops.{concat, concat-snoc, Chain, AllFull, audio}
use vox_lattice.Audio.Rechunker.Drain.{Counted, take_samples_lem, drain_full_hops_lem}

abbrev pub to_list {ℓ} : {A : Type ℓ} → Option A → List A
to_list none = []
to_list (some a) = a ∷ []

nil_of_length {ℓ} : {A : Type ℓ} (xs : List A) → length xs ≡ 0 → xs ≡ []
nil_of_length [] h = refl
nil_of_length (x ∷ xs) h = absurd (omega arith)

-- What an accepted chunk of samples `xs` turns into.
pub record Appended {S : Type 0} (xs : List S) (r : PcmRechunker S) (hops : List (SourceHop S))
    (r' : PcmRechunker S) : Type 0 where
  pub chain : Chain r.next_sample hops r'.next_sample
  pub full : AllFull hops
  pub kept : audio hops ++ concat r'.parts ≡ concat r.parts ++ xs
  pub short : r'.pending_samples < hop_samples
  pub counted : Counted r'
  pub total : r'.next_sample + r'.pending_samples ≡ r.next_sample + r.pending_samples + length xs
  pub bound : r'.max_pending_samples ≡ r.max_pending_samples

-- What a flush of the last samples leaves: one hop that starts with all of them, or none.
pub record Flushed {S : Type 0} (r : PcmRechunker S) (hops : List (SourceHop S))
    (r' : PcmRechunker S) : Type 0 where
  pub chain : Chain r.next_sample hops r'.next_sample
  pub kept : audio hops ≡ concat r.parts
  pub emptied : r'.pending_samples ≡ 0
  pub counted : Counted r'
  pub total : r'.next_sample ≡ r.next_sample + r.pending_samples
  pub bound : r'.max_pending_samples ≡ r.max_pending_samples

module _ (f : Float32) where
  open f use {Value}

  -- A chunk that parses and fits the buffer of a rechunker whose counter agrees with its parts
  -- is accepted; the hops that leave are full, contiguous and in order, they and what stays
  -- are the old samples followed by the new ones, and less than a hop stays.
  pub append_lem :
      (bs : List ℕ) (xs : List Value) (r : PcmRechunker Value)
      → pcm16le_to_float32 f bs ≡ ok xs
      → Counted r
      → r.pending_samples + length xs ≤ r.max_pending_samples
      → (hops : List (SourceHop Value)) × (r' : PcmRechunker Value) × (append f bs r
          ≡ ok (hops, r'))
        × Appended xs r hops r'
  unfolding append
  append_lem bs xs r h c fits =
      let n : ℕ = r.pending_samples + length xs in
      let r1 : PcmRechunker Value = record r { parts = r.parts ++ xs ∷ []; pending_samples = n } in
      let counted : Counted r1 =
        ap length (concat-snoc r.parts xs)
        ∙ length-append (concat r.parts) xs
        ∙ ap (λ k. k + length xs) c in
      let (hops, r', e, d) = drain_full_hops_lem (suc n) r1 counted (omega arith) in
      let small : ltb r.max_pending_samples n ≡ false = ground arith in
      (
        hops,
        r',
        rw (h, small) e,
        record {
          chain = d.chain;
          full = d.full;
          kept = d.kept ∙ concat-snoc r.parts xs;
          short = d.short;
          counted = d.counted;
          total = omega (arith, d.total);
          bound = d.bound;
        },
      )

  append_parsed :
      (bs : List ℕ) (r : PcmRechunker Value) (out : List (SourceHop Value) × PcmRechunker Value)
      → append f bs r ≡ ok out
      → (xs : List Value) × (pcm16le_to_float32 f bs ≡ ok xs)
        × ((if ltb r.max_pending_samples (r.pending_samples + length xs)
              then raise (buffer_error "per-stream input audio buffer is full")
              else drain_full_hops (suc (r.pending_samples + length xs)) (record r {
                parts = r.parts ++ xs ∷ [];
                pending_samples = r.pending_samples + length xs;
              }))
            ≡ ok out)
  unfolding append
  append_parsed bs r out e = >>=-eq-ok (pcm16le_to_float32 f bs) _ e

  -- A chunk that parses but does not fit the buffer raises the buffer error.
  pub append_full :
      (bs : List ℕ) (xs : List Value) (r : PcmRechunker Value)
      → pcm16le_to_float32 f bs ≡ ok xs
      → r.max_pending_samples < r.pending_samples + length xs
      → append f bs r ≡ raise (buffer_error "per-stream input audio buffer is full")
  unfolding append
  append_full bs xs r h full =
      let large : ltb r.max_pending_samples (r.pending_samples + length xs) ≡ true = ground arith in
      rw (h, large)

  -- The hop of `flush_partial`.
  abbrev padded : PcmRechunker Value → PcmRechunker Value → SourceHop Value
  padded r r' = record {
    start_sample = r'.next_sample;
    samples =
        take r.pending_samples (concat r.parts)
        ++ replicate (hop_samples - r.pending_samples) f.zero;
    valid_samples = r.pending_samples;
  }

  Flushed-padded :
      (r r' : PcmRechunker Value)
      → Counted r
      → r.pending_samples < hop_samples
      → 0 < r.pending_samples
      → concat r'.parts ≡ drop r.pending_samples (concat r.parts)
      → r'.pending_samples ≡ r.pending_samples - r.pending_samples
      → r'.next_sample ≡ r.next_sample
      → r'.max_pending_samples ≡ r.max_pending_samples
      → Flushed r
          (padded r r' ∷ [])
          (record r' { next_sample = r'.next_sample + r.pending_samples })
  Flushed-padded r r' c short pos parts pending next bound =
      let n : ℕ = r.pending_samples in
      let xs : List Value = concat r.parts in
      let whole : take n xs ≡ xs = take_of_length-le n xs (omega (arith, c)) in
      let zeros : List Value = replicate (hop_samples - n) f.zero in
      record {
        chain = (
          next,
          record {
            some_valid = pos;
            fits = omega arith;
            framed =
                length-append (take n xs) zeros
                ∙ omega (arith, c, ap length whole, length-replicate (hop_samples - n) f.zero);
          },
          omega (arith, next),
        );
        kept =
            append-nil (take n (take n xs ++ zeros))
            ∙ take-append_of_le n (take n xs) zeros (omega (arith, c, ap length whole))
            ∙ ap (take n) whole
            ∙ whole;
        emptied = omega (arith, pending);
        counted = ap length parts ∙ length-drop n xs ∙ omega (arith, c, pending);
        total = omega (arith, next);
        bound = bound;
      }

  -- With less than a hop pending and an agreeing counter, the flush succeeds and leaves the
  -- rechunker empty; it returns no hop when nothing was pending, and otherwise one that starts
  -- with all pending samples.
  pub flush_partial_lem :
      (r : PcmRechunker Value)
      → Counted r
      → r.pending_samples < hop_samples
      → (o : Option (SourceHop Value)) × (r' : PcmRechunker Value) × (flush_partial f r
          ≡ ok (o, r'))
        × Flushed r (to_list o) r'
  unfolding flush_partial
  flush_partial_lem r c short = elim (Bool-cases (r.pending_samples == 0)) [
    | inl e ↦
        let z : r.pending_samples ≡ 0 = ground arith in
        (
          none,
          r,
          rw e,
          record {
            chain = refl;
            kept = sym (nil_of_length (concat r.parts) (c ∙ z));
            emptied = z;
            counted = c;
            total = omega arith;
            bound = refl;
          },
        )
    | inr e ↦
        let valid : ℕ = r.pending_samples in
        let (r1, t, c1, p1, n1, b1) = take_samples_lem valid r c (omega arith) in
        let small : ltb hop_samples valid ≡ false = ground arith in
        (
          some (padded r r1),
          record r1 { next_sample = r1.next_sample + valid },
          rw (e, t, small),
          Flushed-padded r r1 c short (ground arith) c1 p1 n1 b1,
        )
  ]

  ok_pair :
      {A B : Type 0} {a a' : A} {b b' : B}
      → ◌≡◌ {A = Result (A × B)} (ok (a, b)) (ok (a', b'))
      → (a ≡ a') × (b ≡ b')
  ok_pair e = (cc, cc)

  -- Whatever chunk `append` accepts, it is samples that fit, rechunked.
  pub append_inv :
      (bs : List ℕ) (r r' : PcmRechunker Value) (hops : List (SourceHop Value))
      → Counted r
      → append f bs r ≡ ok (hops, r')
      → (xs : List Value) × (length xs ≡ length bs / 2) × Appended xs r hops r'
  append_inv bs r r' hops c e =
      let (xs, parsed, rest) = append_parsed bs r (hops, r') e in
      elim (Bool-cases (ltb r.max_pending_samples (r.pending_samples + length xs))) [
        | inl full ↦ absurd (cc (append_full bs xs r parsed (ltb→lt _ _ full)))
        | inr fits ↦
            let (hops', r'', e', d) = append_lem bs xs r parsed c (ground arith) in
            let (p, q) = ok_pair (sym e' ∙ e) in
            (
              xs,
              (length-pcm16le_to_float32 f bs xs parsed).2,
              subst₂ (λ h s. Appended xs r h s) p q d,
            )
      ]

  pub flush_partial_inv :
      (r r' : PcmRechunker Value) (o : Option (SourceHop Value))
      → Counted r
      → r.pending_samples < hop_samples
      → flush_partial f r ≡ ok (o, r')
      → Flushed r (to_list o) r'
  flush_partial_inv r r' o c short e =
      let (o', r'', e', d) = flush_partial_lem r c short in
      let (p, q) = ok_pair (sym e' ∙ e) in subst₂ (λ h s. Flushed r (to_list h) s) p q d
