-- ===== src/Server/Model.antt =====
-- model.py, `FastEnhancerBStreamingModel.__init__`: the checks before a model serves. What the constructor
-- finds (CUDA, the files, the network) is given; a JSON or YAML number that is whole is a natural one.
pub mod Loaded
use vox_lattice.Base.{
  ℕ, ◌<◌, ◌≡◌, refl, ap, sym, ◌∙◌, String, str_eq, eq_iff, Bool, true, false, not, ◌&&◌, ◌||◌,
  Bool-cases, Option-cases, Option, none, some, inl, inr, List, [], ◌∷◌, ltb, ◌==◌, if◌then◌else◌,
  Result, ok, raise, ◌>>=◌, >>=-eq-ok, runtime_error, key_error, arith,
}
use vox_lattice.Audio.Rechunker.{sample_rate_hz, hop_samples}
use vox_lattice.Server.Start.{ModelInfo, algorithmic_delay_samples}
use vox_lattice.Server.Caches.{rf_freq, rf_hidden}

abbrev pub n_fft : ℕ
n_fft = 512

abbrev pub rnn_blocks : ℕ
rnn_blocks = 3

abbrev pub expected_model_name : String
expected_model_name = "FastEnhancer-B"

-- A value of a manifest or a configuration; `other` is none of those that a check asks for.
pub data Json : Type 0 where
  number : ℕ → Json
  text : String → Json
  other : Json

-- A dictionary.
abbrev pub Object : Type 0
Object = String → Option Json

abbrev pub json_eq : Option Json → Json → Bool
json_eq (some (number a)) (number b) = a == b
json_eq (some (text a)) (text b) = str_eq a b
json_eq _ _ = false

-- The loop over `expected.items()`: the first key that differs.
unfoldable pub first_mismatch : Object → List (String × Json) → Option String
first_mismatch o [] = none
first_mismatch o ((key, value) ∷ expected) =
    let rest = first_mismatch o expected in if json_eq (o key) value then rest else some key

abbrev pub expected_manifest : List (String × Json)
expected_manifest =
    ("model", text expected_model_name)
    ∷ ("sample_rate_hz", number sample_rate_hz)
    ∷ ("n_fft", number n_fft)
    ∷ ("hop_samples", number hop_samples)
    ∷ ("algorithmic_delay_samples", number algorithmic_delay_samples)
    ∷ ("rnn_blocks", number rnn_blocks)
    ∷ ("rf_freq", number rf_freq)
    ∷ ("rf_hidden", number rf_hidden)
    ∷ []

unfoldable pub validate_manifest : Object → Result Bool
unfolding first_mismatch
validate_manifest manifest = elim (first_mismatch manifest expected_manifest) [
  | none ↦ ok true
  | some key ↦ raise (runtime_error "locked model invariant mismatch")
]

abbrev pub expected_config : List (String × Json)
expected_config =
    ("n_fft", number n_fft) ∷ ("hop_size", number hop_samples) ∷ ("win_size", number n_fft) ∷ []

abbrev pub expected_rf : List (String × Json)
expected_rf =
    ("num_blocks", number rnn_blocks)
    ∷ ("freq", number rf_freq)
    ∷ ("channels", number rf_hidden)
    ∷ []

-- `_load_and_validate_config` after the file is read: `kwargs` and its `rnnformer_kwargs`.
unfoldable pub validate_config : Object → Object → Result Bool
unfolding first_mismatch
validate_config kwargs rf = elim (first_mismatch kwargs expected_config) [
  | some key ↦ raise (runtime_error "released config invariant mismatch")
  | none ↦ elim (first_mismatch rf expected_rf) [
    | some key ↦
        raise (runtime_error "released RNNFormer layout differs from the validated Base model")
    | none ↦ ok true
  ]
]

-- A parameter of the network.
pub record Parameter : Type 0 where
  pub on_device : Bool
  pub is_float32 : Bool

unfoldable pub every : (Parameter → Bool) → List Parameter → Bool
every test [] = true
every test (p ∷ ps) = test p && every test ps

unfoldable pub validate_parameters : List Parameter → Result Bool
unfolding every
validate_parameters [] =
    raise (runtime_error "model parameters are not entirely on the configured CUDA device")
validate_parameters (p ∷ ps) =
    if not (every (λ q. q.on_device) (p ∷ ps))
    then raise (runtime_error "model parameters are not entirely on the configured CUDA device")
    else if not (every (λ q. q.is_float32) (p ∷ ps))
    then raise (runtime_error "model parameters are not entirely float32")
    else ok true

-- What the constructor finds. `device` is the type and the index of `torch.device`; `shown` is Python's
-- `str` of a value that is no text; `rnnformer_kwargs` is the dictionary under that key of `kwargs`, and
-- `none` where the key is missing.
pub record Host : Type 0 where
  pub cuda_available : Bool
  pub device : String × Option ℕ
  pub device_count : ℕ
  pub device_name : String
  pub manifest : Object
  pub shown : Json → String
  pub checkpoint_hash : String
  pub kwargs : Object
  pub rnnformer_kwargs : Option Object
  pub has_state_dict : Bool
  pub parameters : List Parameter

-- The checks of the device.
unfoldable pub validate_device : Host → Result Bool
validate_device h =
    if not h.cuda_available
    then raise (runtime_error "CUDA is required; CPU production inference is forbidden")
    else elim h.device.1 [
      | none ↦ raise (runtime_error "CUDA_DEVICE must be an explicit cuda:N device")
      | some index ↦
          if not (str_eq h.device.0 "cuda")
          then raise (runtime_error "CUDA_DEVICE must be an explicit cuda:N device")
          else if not (ltb index h.device_count)
          then raise (runtime_error "configured CUDA device does not exist")
          else ok true
    ]

-- `manifest["checkpoint_sha256"]` against the file.
unfoldable pub validate_hash : Host → Result Bool
validate_hash h = elim (h.manifest "checkpoint_sha256") [
  | none ↦ raise (key_error "checkpoint_sha256")
  | some value ↦
      if json_eq (some value) (text h.checkpoint_hash)
      then ok true
      else raise (runtime_error "checkpoint SHA-256 does not match locked manifest")
]

-- `str` of a value.
unfoldable pub to_str : (Json → String) → Json → String
to_str shown (text s) = s
to_str shown (number n) = shown (number n)
to_str shown other = shown other

-- `str(manifest["upstream_commit"])`
unfoldable pub revision : Host → Result String
unfolding to_str
revision h = elim (h.manifest "upstream_commit") [
  | none ↦ raise (key_error "upstream_commit")
  | some value ↦ ok (to_str h.shown value)
]

-- `kwargs.get("rnnformer_kwargs", {})`
unfoldable pub rf_of : Host → Object
rf_of h = elim h.rnnformer_kwargs [ none ↦ λ _. none | some rf ↦ rf ]

unfoldable pub load : Host → Result ModelInfo
unfolding validate_device validate_manifest validate_hash revision validate_config
    validate_parameters rf_of
load h = do
  _ ← validate_device h
  _ ← validate_manifest h.manifest
  _ ← validate_hash h
  commit ← revision h
  _ ← validate_config h.kwargs (rf_of h)
  _ ←
      (if h.has_state_dict
        then ok true
        else raise (runtime_error "checkpoint does not contain a model state dict"))
  _ ← validate_parameters h.parameters
  ok (record {
    model_name = expected_model_name;
    model_revision = commit;
    checkpoint_sha256 = h.checkpoint_hash;
    cuda_device_name = h.device_name;
  })
