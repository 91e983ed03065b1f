-- ===== src/Audio/Rechunker/Drain.antt =====
-- `_take` and `_drain_full_hops` of audio.py, on the concatenation of the parts.
use vox_lattice.Base.{
  ℕ, zero, suc, ◌+◌, ◌-◌, ◌≤◌, ◌<◌, min, ◌≡◌, refl, sym, ap, ap₂, ◌∙◌, inl, inr, List, [], ◌∷◌,
  ◌++◌, append_assoc, ok, leb, ◌==◌, arith, Bool-cases, leb→le, length, take, drop, length-append,
  length-take, length-drop, take-append-drop, take_of_length-le, take-append_of_le,
  take-append_of_ge, drop-append_of_le, drop-append_of_ge,
}
use vox_lattice.Audio.Rechunker.{
  hop_samples, SourceHop, PcmRechunker, take_loop, take_samples, drain_full_hops,
}
use vox_lattice.Audio.Rechunker.Hops.{concat, Chain, AllFull, audio}

module _ {S : Type 0} where
  -- The counter agrees with the parts.
  abbrev pub Counted : PcmRechunker S → Type 0
  Counted r = length (concat r.parts) ≡ r.pending_samples

  take_loop_lem :
      (n : ℕ) (ps : List (List S))
      → n ≤ length (concat ps)
      → (rest : List (List S)) × (take_loop n ps ≡ ok (take n (concat ps), rest))
        × (concat rest ≡ drop n (concat ps))
  unfolding take_loop
  take_loop_lem zero ps h = (ps, refl, refl)
  take_loop_lem (suc n) [] h = absurd (omega arith)
  take_loop_lem (suc n) (p ∷ ps) h = elim (Bool-cases (min (suc n) (length p) == length p)) [
    | inl e ↦
        let count : ℕ = min (suc n) (length p) in
        let m : count ≡ length p = ground arith in
        let l : length p ≤ suc n = omega arith in
        let (rest, t, c) =
          take_loop_lem (suc n - count) ps (omega (arith, length-append p (concat ps), l, m)) in
        (
          rest,
          rw
              (
                e,
                t,
                take_of_length-le count p (omega (arith, m)),
                take-append_of_ge (suc n) p (concat ps) l,
              )
              (ap (λ k. ok (p ++ take (suc n - k) (concat ps), rest)) m),
          c
              ∙ ap (λ k. drop (suc n - k) (concat ps)) m
              ∙ sym (drop-append_of_ge (suc n) p (concat ps) l),
        )
    | inr e ↦
        let l : suc n < length p = ground arith in
        let m : min (suc n) (length p) ≡ suc n = omega arith in
        (
          drop (suc n) p ∷ ps,
          rw (e, m, take-append_of_le (suc n) p (concat ps) (omega arith)),
          sym (drop-append_of_le (suc n) p (concat ps) (omega arith)),
        )
  ]

  -- `_take` never runs out of parts, and takes the first samples.
  pub take_samples_lem :
      (n : ℕ) (r : PcmRechunker S)
      → Counted r
      → n ≤ r.pending_samples
      → (r' : PcmRechunker S) × (take_samples n r ≡ ok (take n (concat r.parts), r'))
        × (concat r'.parts ≡ drop n (concat r.parts))
        × (r'.pending_samples ≡ r.pending_samples - n)
        × (r'.next_sample ≡ r.next_sample)
        × (r'.max_pending_samples ≡ r.max_pending_samples)
  unfolding take_samples
  take_samples_lem n r counted h =
      let (rest, t, c) = take_loop_lem n r.parts (omega (arith, counted)) in
      (
        record r { parts = rest; pending_samples = r.pending_samples - n },
        rw t,
        c,
        refl,
        refl,
        refl,
      )

  -- Nothing is lost between `r` and the hops and state that it became.
  pub record Drained (r : PcmRechunker S) (hops : List (SourceHop S)) (r' : PcmRechunker S)
      : Type 0 where
    pub chain : Chain r.next_sample hops r'.next_sample
    pub full : AllFull hops
    pub kept : audio hops ++ concat r'.parts ≡ concat r.parts
    pub short : r'.pending_samples < hop_samples
    pub counted : Counted r'
    pub total : r'.next_sample + r'.pending_samples ≡ r.next_sample + r.pending_samples
    pub bound : r'.max_pending_samples ≡ r.max_pending_samples

  abbrev first_hop : PcmRechunker S → SourceHop S
  first_hop r = record {
    start_sample = r.next_sample;
    samples = take hop_samples (concat r.parts);
    valid_samples = hop_samples;
  }

  -- One round of the loop, before the others.
  Drained-cons :
      (r r' r'' : PcmRechunker S) (hops : List (SourceHop S))
      → Counted r
      → hop_samples ≤ r.pending_samples
      → concat r'.parts ≡ drop hop_samples (concat r.parts)
      → r'.pending_samples ≡ r.pending_samples - hop_samples
      → r'.next_sample ≡ r.next_sample
      → r'.max_pending_samples ≡ r.max_pending_samples
      → Drained (record r' { next_sample = r'.next_sample + hop_samples }) hops r''
      → Drained r (first_hop r ∷ hops) r''
  Drained-cons r r' r'' hops c h parts pending next bound d =
      let whole : length (take hop_samples (concat r.parts)) ≡ hop_samples =
        length-take hop_samples (concat r.parts) ∙ omega (arith, c) in
      record {
        chain = (
          refl,
          record { some_valid = omega arith; fits = omega arith; framed = whole },
          rw (← next) d.chain,
        );
        full = (refl, d.full);
        kept =
            append_assoc (take hop_samples (take hop_samples (concat r.parts))) (audio hops)
              (concat r''.parts)
            ∙ ap₂ ◌++◌
                (take_of_length-le hop_samples (take hop_samples (concat r.parts))
                  (omega (arith, whole)))
                (d.kept ∙ parts)
            ∙ take-append-drop hop_samples (concat r.parts);
        short = d.short;
        counted = d.counted;
        total = omega (arith, d.total, pending, next);
        bound = d.bound ∙ bound;
      }

  pub drain_full_hops_lem :
      (fuel : ℕ) (r : PcmRechunker S)
      → Counted r
      → r.pending_samples < fuel
      → (hops : List (SourceHop S)) × (r' : PcmRechunker S) × (drain_full_hops fuel r
          ≡ ok (hops, r'))
        × Drained r hops r'
  unfolding drain_full_hops
  drain_full_hops_lem zero r c h = absurd (omega arith)
  drain_full_hops_lem (suc fuel) r c h = elim (Bool-cases (leb hop_samples r.pending_samples)) [
    | inl e ↦
        let (r1, t, c1, p1, n1, b1) = take_samples_lem hop_samples r c (leb→le _ _ e) in
        let r2 : PcmRechunker S = record r1 { next_sample = r1.next_sample + hop_samples } in
        let counted : Counted r2 =
          ap length c1 ∙ length-drop hop_samples (concat r.parts) ∙ omega (arith, c, p1) in
        let (hops, r3, d, done) =
          drain_full_hops_lem fuel r2 counted (omega (arith, leb→le _ _ e, p1)) in
        (
          first_hop r ∷ hops,
          r3,
          rw (e, drain_full_hops, t, d),
          Drained-cons r r1 r3 hops c (leb→le _ _ e) c1 p1 n1 b1 done,
        )
    | inr e ↦ (
      [],
      r,
      rw (e, drain_full_hops),
      record {
        chain = refl;
        full = tt;
        kept = refl;
        short = ground arith;
        counted = c;
        total = refl;
        bound = refl;
      },
    )
  ]
