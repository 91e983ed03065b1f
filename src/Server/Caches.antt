-- ===== src/Server/Caches.antt =====
-- services/fastenhancer-server/src/fastenhancer_server/model.py, the caches of the streams of a batch:
-- `StreamCaches`, `combine_stream_caches`, `split_stream_caches` and `infer_batch`. What is called of torch
-- is the interface `Torch`, the network and its transforms are `Network`. The messages leave out the shapes
-- and names that the source formats into them.
pub mod Layout
pub mod Slices
pub mod RoundTrip
mod Examples
pub mod Infer
use vox_lattice.Base.{
  ℕ, zero, suc, ◌+◌, ◌*◌, ◌≤◌, ◌<◌, ◌≡◌, String, str_eq, Bool, true, false, not, ◌&&◌, ◌||◌, Option,
  none, some, List, [], ◌∷◌, ◌++◌, map, length, take, drop, ◌==◌, if◌then◌else◌, Result, ok, raise,
  ◌>>=◌, runtime_error, value_error, index_error,
}
use vox_lattice.Audio.Rechunker.{hop_samples}

abbrev pub rf_freq : ℕ
rf_freq = 24

abbrev pub rf_hidden : ℕ
rf_hidden = 36

-- The dimension along which the streams of a batch lie: the first of two, or the middle one of three.
pub data Axis : Type 0 where
  rows columns : (width : ℕ) → Axis

abbrev pub dim : Axis → ℕ
dim (rows _) = 0
dim (columns _) = 1

abbrev pub shape_of : Axis → ℕ → List ℕ
shape_of (rows w) n = n ∷ w ∷ []
shape_of (columns w) n = 1 ∷ n ∷ w ∷ []

abbrev pub All {ℓ κ} : {A : Type ℓ} → (A → Type κ) → List A → Type κ
All P [] = Unit
All P (x ∷ xs) = P x × All P xs

abbrev pub concat {ℓ} : {A : Type ℓ} → List (List A) → List A
concat [] = []
concat (xs ∷ xss) = xs ++ concat xss

-- What the module calls of torch, with what is documented of it. `narrow d a n t` is the slice `a : a + n`
-- along the dimension `d`; `slices d t` are the entries of `t` along `d`, each with its device and type.
pub record Torch : Type 1 where
  pub Tensor : Type 0
  pub Slice : Type 0
  pub shape : Tensor → List ℕ
  pub is_float32 : Tensor → Bool
  pub device_type : Tensor → String
  pub cat : ℕ → List Tensor → Tensor
  pub narrow : (d start count : ℕ) → Tensor → Tensor
  pub slices : ℕ → Tensor → List Slice
  pub length-slices :
      (a : Axis) (n : ℕ) (t : Tensor) → shape t ≡ shape_of a n → length (slices (dim a) t) ≡ n
  pub slices-cat :
      (a : Axis) (n : ℕ) (device : String) (ts : List Tensor)
      → All (λ t. (shape t ≡ shape_of a n) × (device_type t ≡ device)) ts
      → slices (dim a) (cat (dim a) ts) ≡ concat (map (slices (dim a)) ts)
  pub shape-cat :
      (a : Axis) (n : ℕ) (device : String) (ts : List Tensor)
      → 0 < length ts
      → All (λ t. (shape t ≡ shape_of a n) × (device_type t ≡ device)) ts
      → shape (cat (dim a) ts) ≡ shape_of a (length ts * n)
  pub is_float32-cat :
      (d : ℕ) (ts : List Tensor)
      → 0 < length ts
      → All (λ t. is_float32 t ≡ true) ts
      → is_float32 (cat d ts) ≡ true
  pub slices-narrow :
      (d start count : ℕ) (t : Tensor)
      → slices d (narrow d start count t) ≡ take count (drop start (slices d t))
  pub shape-narrow :
      (a : Axis) (n start count : ℕ) (t : Tensor)
      → shape t ≡ shape_of a n
      → start + count ≤ n
      → shape (narrow (dim a) start count t) ≡ shape_of a count
  pub is_float32-narrow :
      (d start count : ℕ) (t : Tensor) → is_float32 (narrow d start count t) ≡ is_float32 t
  pub same_slices :
      (d : ℕ) (s t : Tensor)
      → shape s ≡ shape t
      → 0 < length (slices d t)
      → slices d s ≡ slices d t
      → s ≡ t

module _ (torch : Torch) where
  open torch use {Tensor, shape, is_float32, device_type, cat, narrow}

  pub record StreamCaches : Type 0 where
    pub stft : Tensor
    pub istft : Tensor
    pub rnn : Tensor × Tensor × Tensor

  -- `tuple(tensor.shape) == dims`
  abbrev pub same_shape : List ℕ → List ℕ → Bool
  same_shape [] [] = true
  same_shape (a ∷ s) (b ∷ t) = a == b && same_shape s t
  same_shape _ _ = false

  abbrev pub tensors : StreamCaches → List Tensor
  tensors c = c.stft ∷ c.istft ∷ c.rnn.0 ∷ c.rnn.1 ∷ c.rnn.2 ∷ []

  unfoldable pub every : (Tensor → Bool) → List Tensor → Bool
  every test [] = true
  every test (t ∷ ts) = test t && every test ts

  -- Whether a tensor is on the device that is asked for, if one is.
  abbrev pub on_device : Option String → Tensor → Bool
  on_device none t = true
  on_device (some device) t = str_eq (device_type t) device

  -- `assert_layout`: the error it raises.
  unfoldable pub layout_error : ℕ → Option String → StreamCaches → Option String
  unfolding every
  layout_error batch_size device c =
      if not (same_shape (shape c.stft) (shape_of (rows hop_samples) batch_size))
      then some "invalid STFT cache shape"
      else if not (same_shape (shape c.istft) (shape_of (rows hop_samples) batch_size))
      then some "invalid iSTFT cache shape"
      else if not (
          every (λ t. same_shape (shape t) (shape_of (columns rf_hidden) (batch_size * rf_freq)))
            (c.rnn.0 ∷ c.rnn.1 ∷ c.rnn.2 ∷ []))
      then some "invalid RNN cache shape"
      else if not (every (on_device device) (tensors c))
      then some "cache is not on required device"
      else if not (every is_float32 (tensors c))
      then some "all caches must be float32"
      else none

  unfoldable pub assert_layout : ℕ → Option String → StreamCaches → Result StreamCaches
  assert_layout batch_size device c = elim (layout_error batch_size device c) [
    | none ↦ ok c
    | some detail ↦ raise (runtime_error detail)
  ]

  -- The loop of `combine_stream_caches` over its argument: the first error.
  unfoldable pub first_error : List StreamCaches → Option String
  first_error [] = none
  first_error (c ∷ cs) =
      let rest = first_error cs in
      elim (layout_error 1 none c) [ none ↦ rest | some detail ↦ some detail ]

  abbrev pub concatenated : List StreamCaches → StreamCaches
  concatenated cs = record {
    stft = cat 0 (map (λ c. c.stft) cs);
    istft = cat 0 (map (λ c. c.istft) cs);
    rnn = (
      cat 1 (map (λ c. c.rnn.0) cs),
      cat 1 (map (λ c. c.rnn.1) cs),
      cat 1 (map (λ c. c.rnn.2) cs),
    );
  }

  unfoldable pub combine_stream_caches : List StreamCaches → Result StreamCaches
  unfolding first_error assert_layout
  combine_stream_caches [] = raise (value_error "cannot combine an empty cache sequence")
  combine_stream_caches (c ∷ cs) = elim (first_error (c ∷ cs)) [
    | some detail ↦ raise (runtime_error detail)
    | none ↦ assert_layout (length (c ∷ cs)) none (concatenated (c ∷ cs))
  ]

  -- The cache of the stream at an index.
  abbrev pub cache_at : StreamCaches → ℕ → StreamCaches
  cache_at c index = record {
    stft = narrow 0 index 1 c.stft;
    istft = narrow 0 index 1 c.istft;
    rnn = (
      narrow 1 (index * rf_freq) rf_freq c.rnn.0,
      narrow 1 (index * rf_freq) rf_freq c.rnn.1,
      narrow 1 (index * rf_freq) rf_freq c.rnn.2,
    );
  }

  -- The loop, with so many rounds to go.
  unfoldable pub caches_from : StreamCaches → ℕ → ℕ → List StreamCaches
  caches_from c index zero = []
  caches_from c index (suc n) = cache_at c index ∷ caches_from c (index + 1) n

  unfoldable pub split_stream_caches : StreamCaches → ℕ → Result (List StreamCaches)
  unfolding caches_from assert_layout
  split_stream_caches c batch_size = do
    checked ← assert_layout batch_size none c
    ok (caches_from checked 0 batch_size)
