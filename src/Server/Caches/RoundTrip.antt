-- ===== src/Server/Caches/RoundTrip.antt =====
-- Splitting what was combined.
use mathlib.Core.Path.{subst}
use vox_lattice.Base.{
  ℕ, ◌+◌, ◌*◌, ◌≡◌, refl, sym, ap, ◌∙◌, String, true, List, [], ◌∷◌, ◌++◌, map, length, ok, ◌>>=◌,
  arith, length-append, length-map, append_assoc, ap₂,
}
use vox_lattice.Server.Caches.Slices.{All-map, All-implies, Fits, narrow-cat}
use vox_lattice.Server.Caches.Layout.{Laid, OnDevice, layout_error_iff, first_error_iff}
use vox_lattice.Audio.Rechunker.{hop_samples}
use vox_lattice.Server.Caches.{
  rf_freq, rf_hidden, Axis, rows, columns, dim, shape_of, All, Torch, StreamCaches, assert_layout,
  concatenated, combine_stream_caches, cache_at, caches_from, split_stream_caches,
}

module _ (torch : Torch) where
  open torch use {Tensor, shape, device_type, cat, narrow}

  -- The caches of a stream, on the device.
  abbrev pub Cached : String → StreamCaches torch → Type 0
  Cached device c = Laid torch 1 c × OnDevice torch device c

  -- What each of the five tensors of a stream satisfies, along its axis.
  part :
      (a : Axis) (k : ℕ) (device : String) (f : StreamCaches torch → Tensor)
      (cs : List (StreamCaches torch))
      → ((c : StreamCaches torch) → Cached device c → Fits torch a k device (f c))
      → All (Cached device) cs
      → All (λ c. Fits torch a k device (f c)) cs
  part a k device f cs each = All-implies (Cached device) _ cs each

  caches_from_lem :
      (device : String) (before after : List (StreamCaches torch))
      → All (Cached device) (before ++ after)
      → caches_from torch (concatenated torch (before ++ after)) (length before) (length after)
        ≡ after
  unfolding caches_from
  caches_from_lem device before [] h = refl
  caches_from_lem device before (c ∷ after) h =
      ap₂ (λ x xs. x ∷ xs) this
        (subst
          (λ l. caches_from torch (concatenated torch l) (length before + 1) (length after) ≡ after)
          (append_assoc before (c ∷ []) after)
          (subst
            (λ n.
              caches_from torch (concatenated torch ((before ++ c ∷ []) ++ after)) n (length after)
              ≡ after)
            (length-append before (c ∷ []))
            (caches_from_lem device (before ++ c ∷ []) after
              (subst (All (Cached device)) (sym (append_assoc before (c ∷ []) after)) h))))
    where
      row :
          (f : StreamCaches torch → Tensor)
          → ((x : StreamCaches torch)
              → Cached device x
              → Fits torch (rows hop_samples) 1 device (f x))
          → narrow 0 (length before) 1 (cat 0 (map f (before ++ c ∷ after))) ≡ f c
      row f each =
          let one : length before * 1 ≡ length before = omega arith in
          subst (λ n. narrow 0 n 1 (cat 0 (map f (before ++ c ∷ after))) ≡ f c) one
            (narrow-cat torch (rows hop_samples) 1 device f before c after (omega arith)
              (part (rows hop_samples) 1 device f (before ++ c ∷ after) each h))

      column :
          (f : StreamCaches torch → Tensor)
          → ((x : StreamCaches torch)
              → Cached device x
              → Fits torch (columns rf_hidden) rf_freq device (f x))
          → narrow 1 (length before * rf_freq) rf_freq (cat 1 (map f (before ++ c ∷ after))) ≡ f c
      column f each =
          narrow-cat torch (columns rf_hidden) rf_freq device f before c after (omega arith)
            (part (columns rf_hidden) rf_freq device f (before ++ c ∷ after) each h)

      this : cache_at torch (concatenated torch (before ++ c ∷ after)) (length before) ≡ c
      this =
          let stft = row (λ x. x.stft) (λ x l. (l.0.stft, l.1.0)) in
          let istft = row (λ x. x.istft) (λ x l. (l.0.istft, l.1.1)) in
          let rnn0 = column (λ x. x.rnn.0) (λ x l. (l.0.rnn0, l.1.2)) in
          let rnn1 = column (λ x. x.rnn.1) (λ x l. (l.0.rnn1, l.1.3)) in
          let rnn2 = column (λ x. x.rnn.2) (λ x l. (l.0.rnn2, l.1.4)) in
          rw (stft, istft, rnn0, rnn1, rnn2)

  concatenated-Laid :
      (device : String) (c : StreamCaches torch) (cs : List (StreamCaches torch))
      → All (Cached device) (c ∷ cs)
      → Laid torch (length (c ∷ cs)) (concatenated torch (c ∷ cs))
  concatenated-Laid device c cs h = record {
    stft = row (λ x. x.stft) (λ x l. (l.0.stft, l.1.0));
    istft = row (λ x. x.istft) (λ x l. (l.0.istft, l.1.1));
    rnn0 = column (λ x. x.rnn.0) (λ x l. (l.0.rnn0, l.1.2));
    rnn1 = column (λ x. x.rnn.1) (λ x l. (l.0.rnn1, l.1.3));
    rnn2 = column (λ x. x.rnn.2) (λ x l. (l.0.rnn2, l.1.4));
    float = (
      float 0 (λ x. x.stft) (λ x l. l.0.float.0),
      float 0 (λ x. x.istft) (λ x l. l.0.float.1),
      float 1 (λ x. x.rnn.0) (λ x l. l.0.float.2),
      float 1 (λ x. x.rnn.1) (λ x l. l.0.float.3),
      float 1 (λ x. x.rnn.2) (λ x l. l.0.float.4),
    );
  }
    where
      whole :
          (a : Axis) (k : ℕ) (f : StreamCaches torch → Tensor)
          → ((x : StreamCaches torch) → Cached device x → Fits torch a k device (f x))
          → shape (cat (dim a) (map f (c ∷ cs))) ≡ shape_of a (length (c ∷ cs) * k)
      whole a k f each =
          torch.shape-cat a k device (map f (c ∷ cs)) (omega arith)
            (All-map (Fits torch a k device) f (c ∷ cs) (part a k device f (c ∷ cs) each h))
          ∙ ap (λ n. shape_of a (n * k)) (length-map (c ∷ cs) f)

      row :
          (f : StreamCaches torch → Tensor)
          → ((x : StreamCaches torch)
              → Cached device x
              → Fits torch (rows hop_samples) 1 device (f x))
          → shape (cat 0 (map f (c ∷ cs))) ≡ shape_of (rows hop_samples) (length (c ∷ cs))
      row f each =
          let one : length (c ∷ cs) * 1 ≡ length (c ∷ cs) = omega arith in
          whole (rows hop_samples) 1 f each ∙ ap (shape_of (rows hop_samples)) one

      column :
          (f : StreamCaches torch → Tensor)
          → ((x : StreamCaches torch)
              → Cached device x
              → Fits torch (columns rf_hidden) rf_freq device (f x))
          → shape (cat 1 (map f (c ∷ cs)))
            ≡ shape_of (columns rf_hidden) (length (c ∷ cs) * rf_freq)
      column f each = whole (columns rf_hidden) rf_freq f each

      float :
          (d : ℕ) (f : StreamCaches torch → Tensor)
          → ((x : StreamCaches torch) → Cached device x → torch.is_float32 (f x) ≡ true)
          → torch.is_float32 (cat d (map f (c ∷ cs))) ≡ true
      float d f each =
          torch.is_float32-cat d (map f (c ∷ cs)) (omega arith)
            (All-map _ f (c ∷ cs) (All-implies (Cached device) _ (c ∷ cs) each h))

  combine_lem :
      (device : String) (c : StreamCaches torch) (cs : List (StreamCaches torch))
      → All (Cached device) (c ∷ cs)
      → combine_stream_caches torch (c ∷ cs) ≡ ok (concatenated torch (c ∷ cs))
  unfolding combine_stream_caches assert_layout
  combine_lem device c cs h =
      let fits =
        (first_error_iff torch (c ∷ cs)).1
          (All-implies (Cached device) (Laid torch 1) (c ∷ cs) (λ x l. l.0) h) in
      let whole =
        (layout_error_iff torch (length (c ∷ cs)) (concatenated torch (c ∷ cs))).1
          (concatenated-Laid device c cs h) in
      ground (arith, fits, whole)

  -- The caches of one stream or more, each with the layout of one stream and all on one
  -- device, combine without an error, and splitting the combination gives them back.
  pub split-combine :
      (device : String) (c : StreamCaches torch) (cs : List (StreamCaches torch))
      → All (Cached device) (c ∷ cs)
      → (combine_stream_caches torch (c ∷ cs)
          >>= (λ whole. split_stream_caches torch whole (length (c ∷ cs))))
        ≡ ok (c ∷ cs)
  unfolding split_stream_caches assert_layout
  split-combine device c cs h =
      let whole =
        (layout_error_iff torch (length (c ∷ cs)) (concatenated torch (c ∷ cs))).1
          (concatenated-Laid device c cs h) in
      let back = caches_from_lem device [] (c ∷ cs) h in
      rw (combine_lem device c cs h) (ground (arith, whole, back))
