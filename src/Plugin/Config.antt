-- ===== src/Plugin/Config.antt =====
-- processor.py, `RemoteFastEnhancerConfig` and what `RemoteFastEnhancer.__init__` makes of it. `characters` is Python's `len` of a text; `len` counts its bytes in UTF-8.
use vox_lattice.Base.{
  refl, ℕ, ◌*◌, ◌/◌, ◌≤◌, ◌<◌, ◌≡◌, ◌↔◌, ◌≢◌, String, len, str_eq, eq_iff, Bool, true, false, not,
  ◌&&◌, ◌||◌, Option, none, some, List, [], ◌∷◌, length, ltb, ◌==◌, if◌then◌else◌, ℤ, pos, negsuc,
  magnitude, arith, ◌⊎◌,
}
use vox_lattice.Base.Float.{
  Float, nan, number, float_leb, float_ltb, zero_float, Positive, NotNegative, float_leb_zero_iff,
  float_ltb_zero_iff,
}
use vox_lattice.Plugin.Processor.{sample_rate_hz}
use vox_lattice.Plugin.Transport.{TransportConfig}
use vox_lattice.Server.Start.{EntriesFit}

pub record RemoteFastEnhancerConfig : Type 0 where
  pub endpoint : String
  pub api_key : Option String
  pub tls : Bool
  pub root_certificates : Option (List ℕ)
  pub client_certificate_chain : Option (List ℕ)
  pub client_private_key : Option (List ℕ)
  pub connect_timeout : Float
  pub output_delay : Float
  pub max_buffer_ms : ℤ
  pub max_request_queue_ms : ℤ
  pub reconnect_min_delay : Float
  pub reconnect_max_delay : Float
  pub stream_metadata : Option (List (String × String))
  pub expected_model_revision : String
  pub expected_model_sha256 : String

abbrev pub less_than : ℤ → ℕ → Bool
less_than (pos a) n = ltb a n
less_than (negsuc _) n = true

-- Whether optional bytes are true for Python.
abbrev pub truthy : Option (List ℕ) → Bool
truthy none = false
truthy (some []) = false
truthy (some (_ ∷ _)) = true

abbrev pub entries_of : Option (List (String × String)) → List (String × String)
entries_of none = []
entries_of (some entries) = entries

-- Whether the loop over the metadata finds an entry beyond the limits.
unfoldable pub entry_exceeds : List (String × String) → Bool
entry_exceeds [] = false
entry_exceeds ((key, value) ∷ entries) =
    let rest = entry_exceeds entries in
    (len key == 0 || (ltb 64 (len key) || ltb 256 (len value))) || rest

module _ (characters : String → ℕ) where
  -- `__post_init__`: the error it raises.
  unfoldable pub config_error : RemoteFastEnhancerConfig → Option String
  unfolding entry_exceeds
  config_error c =
      let chain = truthy c.client_certificate_chain in
      let key = truthy c.client_private_key in
      if str_eq c.endpoint ""
      then some "endpoint must not be empty"
      else if float_leb c.connect_timeout zero_float || float_ltb c.output_delay zero_float
      then some "timeouts must be positive"
      else if less_than c.max_buffer_ms 32 || less_than c.max_request_queue_ms 16
      then some "buffer bounds are too small for the model contract"
      else if not (
          float_ltb zero_float c.reconnect_min_delay
          && float_leb c.reconnect_min_delay c.reconnect_max_delay)
      then some "invalid reconnect delay range"
      else if (chain && not key) || (not chain && key)
      then some "client certificate chain and private key must be configured together"
      else if (chain || key) && not c.tls
      then some "client certificates require TLS"
      else if not (characters c.expected_model_revision == 40)
      then some "expected_model_revision must be a full commit hash"
      else if not (characters c.expected_model_sha256 == 64)
      then some "expected_model_sha256 must be a full SHA-256"
      else if ltb 16 (length (entries_of c.stream_metadata))
      then some "stream_metadata has more than 16 entries"
      else if entry_exceeds (entries_of c.stream_metadata)
      then some "stream_metadata entry exceeds protocol limits"
      else none

  -- What a configuration must satisfy.
  pub record IsConfig (c : RemoteFastEnhancerConfig) : Type 0 where
    pub endpoint : c.endpoint ≢ ""
    pub timeout : (c.connect_timeout ≡ nan) ⊎ Positive c.connect_timeout
    pub delay : (c.output_delay ≡ nan) ⊎ NotNegative c.output_delay
    pub buffer : (n : ℕ) × (c.max_buffer_ms ≡ pos n) × (32 ≤ n)
    pub queue : (n : ℕ) × (c.max_request_queue_ms ≡ pos n) × (16 ≤ n)
    pub delays :
        (lo hi : ℕ) × (c.reconnect_min_delay ≡ number (pos lo))
        × (c.reconnect_max_delay ≡ number (pos hi))
        × (0 < lo)
        × (lo ≤ hi)
    pub together : truthy c.client_certificate_chain ≡ truthy c.client_private_key
    pub certificates_need_tls : truthy c.client_private_key ≡ true → c.tls ≡ true
    pub revision : characters c.expected_model_revision ≡ 40
    pub sha256 : characters c.expected_model_sha256 ≡ 64
    pub entries : length (entries_of c.stream_metadata) ≤ 16
    pub entries_fit : EntriesFit (entries_of c.stream_metadata)

-- A positive float as the multiple that it is.
abbrev multiple : Float → ℕ
multiple nan = 0
multiple (number n) = magnitude n

delays_iff :
    (x y : Float)
    → ((float_ltb zero_float x && float_leb x y) ≡ true)
      ↔ ((lo hi : ℕ) × (x ≡ number (pos lo)) × (y ≡ number (pos hi)) × (0 < lo) × (lo ≤ hi))
unfolding float_leb float_ltb
delays_iff nan y = ground arith
delays_iff (number x) nan = ground arith
delays_iff (number (pos a)) (number (pos b)) =
    ((λ e. (a, b, refl, refl, ground arith, ground arith)), (λ h. ground (arith, h)))
delays_iff (number (pos a)) (number (negsuc b)) = ground arith
delays_iff (number (negsuc a)) (number (pos b)) = ground arith
delays_iff (number (negsuc a)) (number (negsuc b)) = ground arith

-- `TransportConfig(...)` in `RemoteFastEnhancer.__init__`, for an accepted configuration.
unfoldable pub transport_config : RemoteFastEnhancerConfig → TransportConfig
transport_config c = record {
  api_key = c.api_key;
  reconnect_min_delay = multiple c.reconnect_min_delay;
  reconnect_max_delay = multiple c.reconnect_max_delay;
  max_request_queue_samples = magnitude c.max_request_queue_ms * sample_rate_hz / 1000;
  expected_model_revision = c.expected_model_revision;
  expected_model_sha256 = c.expected_model_sha256;
}

entry_exceeds_iff :
    (entries : List (String × String)) → (entry_exceeds entries ≡ false) ↔ EntriesFit entries
unfolding entry_exceeds
entry_exceeds_iff [] = ground arith
entry_exceeds_iff ((key, value) ∷ entries) = ground (arith, entry_exceeds_iff entries)

module _ (characters : String → ℕ) (c : RemoteFastEnhancerConfig) where
  -- A configuration of the plugin raises no error exactly when its endpoint is not empty, its
  -- timeout is positive or NaN and its delay not negative or NaN, its buffers hold 32 and 16
  -- ms, its delays are a range of positive numbers, its certificate and key come together and
  -- with TLS, its hashes have 40 and 64 characters, and its metadata fits the limits of the
  -- server.
  pub config_error_iff : (config_error characters c ≡ none) ↔ IsConfig characters c
  unfolding config_error
  config_error_iff = ground (
    arith,
    eq_iff c.endpoint "",
    float_leb_zero_iff c.connect_timeout,
    float_ltb_zero_iff c.output_delay,
    delays_iff c.reconnect_min_delay c.reconnect_max_delay,
    entry_exceeds_iff (entries_of c.stream_metadata),
  )

  -- An accepted configuration gives the worker a range of positive delays and room for 256 samples.
  pub transport_config_lem :
      config_error characters c ≡ none
      → ((transport_config c).reconnect_min_delay ≤ (transport_config c).reconnect_max_delay)
        × (0 < (transport_config c).reconnect_min_delay)
        × (256 ≤ (transport_config c).max_request_queue_samples)
  unfolding transport_config
  transport_config_lem e = ground (arith, config_error_iff.0 e)
