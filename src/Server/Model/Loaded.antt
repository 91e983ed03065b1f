-- ===== src/Server/Model/Loaded.antt =====
-- What the constructor of the model has checked when it returns.
use mathlib.Core.Path.{subst}
use vox_lattice.Base.{
  ℕ, ◌<◌, ◌≡◌, refl, ◌∙◌, String, eq_iff, Bool, true, Bool-cases, Option-cases, Option, none, some,
  inl, inr, List, [], ◌∷◌, if◌then◌else◌, ok, raise, >>=-eq-ok, runtime_error, arith,
}
use vox_lattice.Server.Start.{ModelInfo}
use vox_lattice.Server.Model.{
  expected_model_name, Json, number, text, other, Object, json_eq, first_mismatch,
  expected_manifest, validate_manifest, expected_config, expected_rf, validate_config, Parameter,
  every, validate_parameters, Host, validate_device, validate_hash, to_str, revision, rf_of, load,
}

-- The entries that are expected are there.
abbrev pub Holds : Object → List (String × Json) → Type 0
Holds o [] = Unit
Holds o ((key, value) ∷ expected) = (o key ≡ some value) × Holds o expected

abbrev pub Each : (Parameter → Bool) → List Parameter → Type 0
Each test [] = Unit
Each test (p ∷ ps) = (test p ≡ true) × Each test ps

json_eq→eq : (j : Option Json) (v : Json) → json_eq j v ≡ true → j ≡ some v
json_eq→eq none v e = ground (arith, e)
json_eq→eq (some (number a)) (number b) e = ground (arith, e)
json_eq→eq (some (number a)) (text b) e = ground (arith, e)
json_eq→eq (some (number a)) other e = ground (arith, e)
json_eq→eq (some (text a)) (number b) e = ground (arith, e)
json_eq→eq (some (text a)) (text b) e = ground (arith, e, eq_iff a b)
json_eq→eq (some (text a)) other e = ground (arith, e)
json_eq→eq (some other) (number b) e = ground (arith, e)
json_eq→eq (some other) (text b) e = ground (arith, e)
json_eq→eq (some other) other e = ground (arith, e)

first_mismatch-Holds :
    (o : Object) (expected : List (String × Json))
    → first_mismatch o expected ≡ none
    → Holds o expected
unfolding first_mismatch
first_mismatch-Holds o [] e = tt
first_mismatch-Holds o ((key, value) ∷ expected) e = elim (Bool-cases (json_eq (o key) value)) [
  | inl same ↦
      (json_eq→eq (o key) value same, first_mismatch-Holds o expected (ground (arith, e, same)))
  | inr differs ↦ absurd (ground (arith, e, differs))
]

every-Each : (test : Parameter → Bool) (ps : List Parameter) → every test ps ≡ true → Each test ps
unfolding every
every-Each test [] e = tt
every-Each test (p ∷ ps) e = (ground (arith, e), every-Each test ps (ground (arith, e)))

validate_manifest-Holds :
    (o : Object) (b : Bool) → validate_manifest o ≡ ok b → Holds o expected_manifest
unfolding validate_manifest
validate_manifest-Holds o b e = elim (Option-cases (first_mismatch o expected_manifest)) [
  | inl good ↦ first_mismatch-Holds o expected_manifest good
  | inr (key, bad) ↦ absurd (ground (arith, e, bad))
]

validate_config-Holds :
    (kwargs rf : Object) (b : Bool)
    → validate_config kwargs rf ≡ ok b
    → Holds kwargs expected_config × Holds rf expected_rf
unfolding validate_config
validate_config-Holds kwargs rf b e = elim (Option-cases (first_mismatch kwargs expected_config)) [
  | inr (key, bad) ↦ absurd (ground (arith, e, bad))
  | inl good ↦ elim (Option-cases (first_mismatch rf expected_rf)) [
    | inr (key, bad) ↦ absurd (ground (arith, e, good, bad))
    | inl fine ↦
        (first_mismatch-Holds kwargs expected_config good, first_mismatch-Holds rf expected_rf fine)
  ]
]

validate_hash-ok :
    (h : Host) (b : Bool)
    → validate_hash h ≡ ok b
    → h.manifest "checkpoint_sha256" ≡ some (text h.checkpoint_hash)
unfolding validate_hash
validate_hash-ok h b e = elim (Option-cases (h.manifest "checkpoint_sha256")) [
  | inl missing ↦ absurd (ground (arith, e, missing))
  | inr (value, found) ↦ elim (Bool-cases (json_eq (some value) (text h.checkpoint_hash))) [
    | inl same ↦ found ∙ json_eq→eq (some value) (text h.checkpoint_hash) same
    | inr differs ↦ absurd (ground (arith, e, found, differs))
  ]
]

validate_parameters-Each :
    (ps : List Parameter) (b : Bool)
    → validate_parameters ps ≡ ok b
    → Each (λ p. p.on_device) ps × Each (λ p. p.is_float32) ps
unfolding validate_parameters
validate_parameters-Each [] b e = cc
validate_parameters-Each (p ∷ ps) b e = elim (Bool-cases (every (λ q. q.on_device) (p ∷ ps))) [
  | inr bad ↦ absurd (ground (arith, e, bad))
  | inl placed ↦ elim (Bool-cases (every (λ q. q.is_float32) (p ∷ ps))) [
    | inr bad ↦ absurd (ground (arith, e, placed, bad))
    | inl float ↦ (
      every-Each (λ q. q.on_device) (p ∷ ps) placed,
      every-Each (λ q. q.is_float32) (p ∷ ps) float,
    )
  ]
]

validate_device-ok :
    (h : Host) (b : Bool)
    → validate_device h ≡ ok b
    → (index : ℕ) × (h.device ≡ ("cuda", some index)) × (index < h.device_count)
unfolding validate_device
validate_device-ok h b e = elim (Option-cases h.device.1) [
  | inl missing ↦ absurd (ground (arith, e, missing))
  | inr (index, found) ↦
      (index, ground (arith, e, found, eq_iff h.device.0 "cuda"), ground (arith, e, found))
]

-- A model that was loaded.
pub record Loaded (h : Host) (info : ModelInfo) : Type 0 where
  pub name : info.model_name ≡ expected_model_name
  pub commit :
      (value : Json) × (h.manifest "upstream_commit" ≡ some value)
      × (info.model_revision ≡ to_str h.shown value)
  pub hash : h.manifest "checkpoint_sha256" ≡ some (text info.checkpoint_sha256)
  pub of_file : info.checkpoint_sha256 ≡ h.checkpoint_hash
  pub manifest : Holds h.manifest expected_manifest
  pub config : Holds h.kwargs expected_config
  pub rf : (rf : Object) × (h.rnnformer_kwargs ≡ some rf) × Holds rf expected_rf
  pub device : (index : ℕ) × (h.device ≡ ("cuda", some index)) × (index < h.device_count)
  pub parameters : Each (λ p. p.on_device) h.parameters × Each (λ p. p.is_float32) h.parameters

ok-injective : {A : Type 0} {x y : A} → ok x ≡ ok y → x ≡ y
ok-injective e = cc

revision-ok :
    (h : Host) (commit : String)
    → revision h ≡ ok commit
    → (value : Json) × (h.manifest "upstream_commit" ≡ some value) × (commit ≡ to_str h.shown value)
unfolding revision
revision-ok h commit e = elim (Option-cases (h.manifest "upstream_commit")) [
  | inl missing ↦ absurd (ground (arith, e, missing))
  | inr (value, found) ↦ (value, found, ground (arith, e, found))
]

rf_missing : (h : Host) → h.rnnformer_kwargs ≡ none → rf_of h "num_blocks" ≡ none
unfolding rf_of
rf_missing h e = ground (arith, e)

rf_found : (h : Host) (rf : Object) → h.rnnformer_kwargs ≡ some rf → rf_of h ≡ rf
unfolding rf_of
rf_found h rf e = ground (arith, e)

-- An empty dictionary has not the expected entries.
rf_of-Holds :
    (h : Host)
    → Holds (rf_of h) expected_rf
    → (rf : Object) × (h.rnnformer_kwargs ≡ some rf) × Holds rf expected_rf
rf_of-Holds h holds = elim (Option-cases h.rnnformer_kwargs) [
  | inl missing ↦ absurd (ground (arith, (rf_missing h missing), holds.0))
  | inr (rf, found) ↦ (rf, found, subst (λ o. Holds o expected_rf) (rf_found h rf found) holds)
]

-- When a model is loaded, it has the expected name and as its revision the str of the
-- manifest's upstream_commit, the hash of the checkpoint is that of the manifest, the manifest
-- and the configuration have all expected entries, the device is a CUDA device with an index
-- that exists, and all parameters are on it as 32-bit floats.
pub load-Loaded : (h : Host) (info : ModelInfo) → load h ≡ ok info → Loaded h info
unfolding load
load-Loaded h info e0 =
    let (device, device_ok, e1) = >>=-eq-ok (validate_device h) _ e0 in
    let (manifest, manifest_ok, e2) = >>=-eq-ok (validate_manifest h.manifest) _ e1 in
    let (hash, hash_ok, e3) = >>=-eq-ok (validate_hash h) _ e2 in
    let (commit, commit_ok, e4) = >>=-eq-ok (revision h) _ e3 in
    let (config, config_ok, e5) = >>=-eq-ok (validate_config h.kwargs (rf_of h)) _ e4 in
    let (state, state_ok, e6) =
      >>=-eq-ok
        ((if h.has_state_dict
          then ok true
          else raise (runtime_error "checkpoint does not contain a model state dict")))
        _ e5 in
    let (parameters, parameters_ok, e7) = >>=-eq-ok (validate_parameters h.parameters) _ e6 in
    subst (Loaded h) (ok-injective e7) (record {
      name = refl;
      commit = revision-ok h commit commit_ok;
      hash = validate_hash-ok h hash hash_ok;
      of_file = refl;
      manifest = validate_manifest-Holds h.manifest manifest manifest_ok;
      config = (validate_config-Holds h.kwargs (rf_of h) config config_ok).0;
      rf = rf_of-Holds h (validate_config-Holds h.kwargs (rf_of h) config config_ok).1;
      device = validate_device-ok h device device_ok;
      parameters = validate_parameters-Each h.parameters parameters parameters_ok;
    })
