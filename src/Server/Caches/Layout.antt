-- ===== src/Server/Caches/Layout.antt =====
-- What `assert_layout` accepts.
use vox_lattice.Base.{ℕ, ◌*◌, ◌≡◌, ◌↔◌, String, eq_iff, true, none, some, List, [], ◌∷◌, arith}
use vox_lattice.Audio.Rechunker.{hop_samples}
use vox_lattice.Server.Caches.{
  rf_freq, rf_hidden, rows, columns, shape_of, All, Torch, StreamCaches, same_shape, every,
  layout_error, first_error,
}

module _ (torch : Torch) where
  open torch use {Tensor, shape, is_float32, device_type}

  -- The caches of so many streams.
  pub record Laid (n : ℕ) (c : StreamCaches torch) : Type 0 where
    pub stft : shape c.stft ≡ shape_of (rows hop_samples) n
    pub istft : shape c.istft ≡ shape_of (rows hop_samples) n
    pub rnn0 : shape c.rnn.0 ≡ shape_of (columns rf_hidden) (n * rf_freq)
    pub rnn1 : shape c.rnn.1 ≡ shape_of (columns rf_hidden) (n * rf_freq)
    pub rnn2 : shape c.rnn.2 ≡ shape_of (columns rf_hidden) (n * rf_freq)
    pub float :
        (is_float32 c.stft ≡ true)
        × (is_float32 c.istft ≡ true)
        × (is_float32 c.rnn.0 ≡ true)
        × (is_float32 c.rnn.1 ≡ true)
        × (is_float32 c.rnn.2 ≡ true)

  -- All tensors are on one device.
  abbrev pub OnDevice : String → StreamCaches torch → Type 0
  OnDevice device c =
      (device_type c.stft ≡ device)
      × (device_type c.istft ≡ device)
      × (device_type c.rnn.0 ≡ device)
      × (device_type c.rnn.1 ≡ device)
      × (device_type c.rnn.2 ≡ device)

  pub same_shape_iff : (s t : List ℕ) → (same_shape torch s t ≡ true) ↔ (s ≡ t)
  same_shape_iff [] [] = ground arith
  same_shape_iff [] (b ∷ t) = ground arith
  same_shape_iff (a ∷ s) [] = ground arith
  same_shape_iff (a ∷ s) (b ∷ t) = ground (arith, same_shape_iff s t)

  pub layout_error_iff :
      (n : ℕ) (c : StreamCaches torch) → (layout_error torch n none c ≡ none) ↔ Laid n c
  unfolding layout_error every
  layout_error_iff n c = ground (
    arith,
    same_shape_iff (shape c.stft) (n ∷ hop_samples ∷ []),
    same_shape_iff (shape c.istft) (n ∷ hop_samples ∷ []),
    same_shape_iff (shape c.rnn.0) (1 ∷ n * rf_freq ∷ rf_hidden ∷ []),
    same_shape_iff (shape c.rnn.1) (1 ∷ n * rf_freq ∷ rf_hidden ∷ []),
    same_shape_iff (shape c.rnn.2) (1 ∷ n * rf_freq ∷ rf_hidden ∷ []),
  )

  pub layout_error_device_iff :
      (n : ℕ) (device : String) (c : StreamCaches torch)
      → (layout_error torch n (some device) c ≡ none) ↔ (Laid n c × OnDevice device c)
  unfolding layout_error every
  layout_error_device_iff n device c = ground (
    arith,
    same_shape_iff (shape c.stft) (n ∷ hop_samples ∷ []),
    same_shape_iff (shape c.istft) (n ∷ hop_samples ∷ []),
    same_shape_iff (shape c.rnn.0) (1 ∷ n * rf_freq ∷ rf_hidden ∷ []),
    same_shape_iff (shape c.rnn.1) (1 ∷ n * rf_freq ∷ rf_hidden ∷ []),
    same_shape_iff (shape c.rnn.2) (1 ∷ n * rf_freq ∷ rf_hidden ∷ []),
    eq_iff (device_type c.stft) device,
    eq_iff (device_type c.istft) device,
    eq_iff (device_type c.rnn.0) device,
    eq_iff (device_type c.rnn.1) device,
    eq_iff (device_type c.rnn.2) device,
  )

  pub first_error_iff :
      (cs : List (StreamCaches torch)) → (first_error torch cs ≡ none) ↔ All (Laid 1) cs
  unfolding first_error
  first_error_iff [] = ground arith
  first_error_iff (c ∷ cs) = ground (arith, layout_error_iff 1 c, first_error_iff cs)
