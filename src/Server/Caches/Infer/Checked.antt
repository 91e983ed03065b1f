-- ===== src/Server/Caches/Infer/Checked.antt =====
-- What `infer_batch` took and returned, when it returned.
use mathlib.Core.Path.{subst}
use vox_lattice.Base.{
  ℕ, zero, suc, ◌+◌, ◌*◌, ◌≤◌, ◌<◌, ◌≡◌, refl, sym, ap, ◌∙◌, String, true, Bool-cases, some,
  Option-cases, inl, inr, List, [], ◌∷◌, length, ok, >>=-eq-ok, arith,
}
use vox_lattice.Audio.Rechunker.{hop_samples}
use vox_lattice.Server.Caches.{
  rf_freq, rf_hidden, rows, columns, All, Torch, StreamCaches, same_shape, layout_error,
  first_error, assert_layout, combine_stream_caches, cache_at, caches_from, split_stream_caches,
}
use vox_lattice.Server.Caches.Layout.{
  Laid, first_error_iff, layout_error_device_iff, same_shape_iff,
}
use vox_lattice.Server.Caches.Infer.{
  Network, first_three, moved, forward, split_output, checked_output, infer_batch,
}

ok-injective : {A : Type 0} {x y : A} → ok x ≡ ok y → x ≡ y
ok-injective e = cc

module _ (torch : Torch) (net : Network torch) where
  open torch use {Tensor, shape}
  open net use {all_finite}

  length-caches_from : (c : StreamCaches torch) (i n : ℕ) → length (caches_from torch c i n) ≡ n
  unfolding caches_from
  length-caches_from c i zero = refl
  length-caches_from c i (suc n) = ap suc (length-caches_from c (i + 1) n)

  cache_at-Laid :
      (n i : ℕ) (c : StreamCaches torch)
      → Laid torch n c
      → i < n
      → Laid torch 1 (cache_at torch c i)
  cache_at-Laid n i c l lt = record {
    stft = torch.shape-narrow (rows hop_samples) n i 1 c.stft l.stft (omega (arith, lt));
    istft = torch.shape-narrow (rows hop_samples) n i 1 c.istft l.istft (omega (arith, lt));
    rnn0 =
        torch.shape-narrow (columns rf_hidden) (n * rf_freq) (i * rf_freq) rf_freq c.rnn.0 l.rnn0
          (omega (arith, lt));
    rnn1 =
        torch.shape-narrow (columns rf_hidden) (n * rf_freq) (i * rf_freq) rf_freq c.rnn.1 l.rnn1
          (omega (arith, lt));
    rnn2 =
        torch.shape-narrow (columns rf_hidden) (n * rf_freq) (i * rf_freq) rf_freq c.rnn.2 l.rnn2
          (omega (arith, lt));
    float = (
      torch.is_float32-narrow 0 i 1 c.stft ∙ l.float.0,
      torch.is_float32-narrow 0 i 1 c.istft ∙ l.float.1,
      torch.is_float32-narrow 1 (i * rf_freq) rf_freq c.rnn.0 ∙ l.float.2,
      torch.is_float32-narrow 1 (i * rf_freq) rf_freq c.rnn.1 ∙ l.float.3,
      torch.is_float32-narrow 1 (i * rf_freq) rf_freq c.rnn.2 ∙ l.float.4,
    );
  }

  caches_from-Laid :
      (n i k : ℕ) (c : StreamCaches torch)
      → Laid torch n c
      → i + k ≤ n
      → All (Laid torch 1) (caches_from torch c i k)
  unfolding caches_from
  caches_from-Laid n i zero c l h = tt
  caches_from-Laid n i (suc k) c l h = (
    cache_at-Laid n i c l (omega (arith, h)),
    caches_from-Laid n (i + 1) k c l (omega (arith, h)),
  )

  -- What comes out of a batch of `n` streams.
  pub record Inferred (n : ℕ) (out : Tensor × List (StreamCaches torch)) : Type 0 where
    pub audio : shape out.0 ≡ n ∷ hop_samples ∷ []
    pub finite : all_finite out.0 ≡ true
    pub caches : length out.1 ≡ n
    pub laid : All (Laid torch 1) out.1

  assert_layout-ok :
      (n : ℕ) (device : String) (c u : StreamCaches torch)
      → assert_layout torch n (some device) c ≡ ok u
      → Laid torch n u
  unfolding assert_layout
  assert_layout-ok n device c u e = elim (Option-cases (layout_error torch n (some device) c)) [
    | inl good ↦
        let same : c ≡ u = ground (arith, e, good) in
        subst (Laid torch n) same ((layout_error_device_iff torch n device c).0 good).0
    | inr (detail, bad) ↦ absurd (ground (arith, e, bad))
  ]

  split-ok :
      (n : ℕ) (c : StreamCaches torch) (cs : List (StreamCaches torch))
      → split_stream_caches torch c n ≡ ok cs
      → cs ≡ caches_from torch c 0 n
  unfolding split_stream_caches assert_layout
  split-ok n c cs e = ground (arith, e)

  split_output-Inferred :
      (n : ℕ) (wav_out stft istft : Tensor) (states : List Tensor)
      (out : Tensor × List (StreamCaches torch))
      → shape wav_out ≡ n ∷ hop_samples ∷ []
      → all_finite wav_out ≡ true
      → split_output torch net n wav_out stft istft states ≡ ok out
      → Inferred n out
  unfolding split_output
  split_output-Inferred n wav_out stft istft states out audio finite e0 =
      let (rnn, _, e1) = >>=-eq-ok (first_three torch net states) _ e0 in
      let (updated, good, e2) =
        >>=-eq-ok
          (assert_layout torch n (some "cuda") (record { stft = stft; istft = istft; rnn = rnn })) _
          e1 in
      let (caches, split, e3) = >>=-eq-ok (split_stream_caches torch updated n) _ e2 in
      let same : (wav_out, caches_from torch updated 0 n) ≡ out =
        ap (λ c. (wav_out, c)) (sym (split-ok n updated caches split)) ∙ ok-injective e3 in
      subst (Inferred n) same (record {
        audio = audio;
        finite = finite;
        caches = length-caches_from updated 0 n;
        laid =
            caches_from-Laid n 0 n updated
              (assert_layout-ok n "cuda" (record { stft = stft; istft = istft; rnn = rnn }) updated
                good)
              (omega arith);
      })

  combine-ok :
      (cs : List (StreamCaches torch)) (c : StreamCaches torch)
      → combine_stream_caches torch cs ≡ ok c
      → (0 < length cs) × All (Laid torch 1) cs
  unfolding combine_stream_caches
  combine-ok [] c e = cc
  combine-ok (x ∷ cs) c e = elim (Option-cases (first_error torch (x ∷ cs))) [
    | inl good ↦ (omega arith, (first_error_iff torch (x ∷ cs)).0 good)
    | inr (detail, bad) ↦ absurd (ground (arith, e, bad))
  ]

  checked_output-Inferred :
      (n : ℕ) (given : Tensor × Tensor × Tensor × List Tensor)
      (out : Tensor × List (StreamCaches torch))
      → checked_output torch net n given ≡ ok out
      → Inferred n out
  unfolding checked_output
  checked_output-Inferred n (wav_out, stft, istft, states) out e =
      elim (Bool-cases (same_shape torch (shape wav_out) (n ∷ hop_samples ∷ []))) [
        | inr bad ↦ absurd (ground (arith, e, bad))
        | inl good ↦ elim (Bool-cases (all_finite wav_out)) [
          | inr bad ↦ absurd (ground (arith, e, good, bad))
          | inl finite ↦
              split_output-Inferred n wav_out stft istft states out
                ((same_shape_iff torch (shape wav_out) (n ∷ hop_samples ∷ [])).0 good) finite
                (ground (arith, e, good, finite))
        ]
      ]

  -- When the inference of a batch returns, there was one stream at least and each cache had
  -- the layout of one stream; the audio has one row of 256 samples for each stream, all
  -- finite, and there are as many new caches, each with the layout of one stream.
  pub infer_batch-Inferred :
      (wav_hops : Tensor) (cs : List (StreamCaches torch))
      (out : Tensor × List (StreamCaches torch))
      → infer_batch torch net wav_hops cs ≡ ok out
      → (0 < length cs) × All (Laid torch 1) cs × Inferred (length cs) out
  unfolding infer_batch
  infer_batch-Inferred wav_hops cs out e =
      elim (Bool-cases (same_shape torch (shape wav_hops) (length cs ∷ hop_samples ∷ []))) [
        | inr bad ↦ absurd (ground (arith, e, bad))
        | inl good ↦
            let (combined, made, e1) =
              >>=-eq-ok (combine_stream_caches torch cs)
                (λ c.
                  checked_output torch net (length cs)
                    (forward torch net wav_hops (moved torch net c)))
                {y = out} (ground (arith, e, good)) in
            let (some_caches, laid) = combine-ok cs combined made in
            (
              some_caches,
              laid,
              checked_output-Inferred (length cs)
                  (forward torch net wav_hops (moved torch net combined)) out e1,
            )
      ]
