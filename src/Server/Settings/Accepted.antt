-- ===== src/Server/Settings/Accepted.antt =====
-- The settings that `from_environment` accepts.
use mathlib.Core.Path.{subst}
use vox_lattice.Base.Float.{Float, nan, Positive, float_leb_zero_iff}
use vox_lattice.Base.{
  ℕ, ◌≤◌, ◌<◌, ◌≡◌, ◌↔◌, ◌≢◌, ◌⊎◌, String, Bool, false, none, ok, >>=-eq-ok, arith,
}
use vox_lattice.Server.Settings.{
  Python, Environment, long, path, positive_int, positive_float, boolean, ServerSettings, api_token,
  check_tls, from_environment,
}

ok-injective : {A : Type 0} {x y : A} → ok x ≡ ok y → x ≡ y
ok-injective e = cc

module _ (py : Python) (env : Environment) where
  positive_int-ok :
      (name default : String) (n : ℕ) → positive_int py env name default ≡ ok n → 0 < n
  unfolding positive_int
  positive_int-ok name default n e = ground (arith, e)

  -- What holds of accepted settings.
  pub record Safe (s : ServerSettings) : Type 0 where
    pub token : 16 ≤ py.characters s.api_token
    pub encrypted :
        s.allow_insecure ≡ false → (s.tls_certificate ≢ none) × (s.tls_private_key ≢ none)
    pub together : (s.tls_certificate ≡ none) ↔ (s.tls_private_key ≡ none)
    pub ports : (0 < s.grpc_port) × (0 < s.http_port)
    pub streams : (0 < s.max_active_streams) × (0 < s.max_batch_size)
    pub pending : (0 < s.max_pending_audio_ms_per_stream) × (0 < s.max_output_audio_ms_per_stream)
    pub chunks : 0 < s.max_audio_chunk_samples
    pub wait : (s.max_batch_wait_ms ≡ nan) ⊎ Positive s.max_batch_wait_ms
    pub idle : (s.stream_idle_timeout_s ≡ nan) ⊎ Positive s.stream_idle_timeout_s
    pub grace : (s.graceful_shutdown_s ≡ nan) ⊎ Positive s.graceful_shutdown_s

  positive_float-ok :
      (name default : String) (x : Float)
      → positive_float py env name default ≡ ok x
      → (x ≡ nan) ⊎ Positive x
  unfolding positive_float
  positive_float-ok name default x e = (float_leb_zero_iff x).0 (ground (arith, e))

  api_token-ok : (t : String) → api_token py env ≡ ok t → 16 ≤ py.characters t
  unfolding api_token long
  api_token-ok t e = ground (arith, e)

  check_tls-ok :
      (insecure : Bool)
      → check_tls py env insecure ≡ ok tt
      → (insecure ≡ false
          → (path (env "TLS_CERTIFICATE") ≢ none) × (path (env "TLS_PRIVATE_KEY") ≢ none))
        × ((path (env "TLS_CERTIFICATE") ≡ none) ↔ (path (env "TLS_PRIVATE_KEY") ≡ none))
  unfolding check_tls
  check_tls-ok insecure e = ground (arith, e)

  -- Accepted settings have a token of at least 16 characters, a certificate and a key together
  -- or neither, both unless insecure access is allowed, only positive integers, and durations
  -- that are positive or NaN.
  pub from_environment-Safe : (s : ServerSettings) → from_environment py env ≡ ok s → Safe s
  unfolding from_environment
  from_environment-Safe s e0 =
      let (token, token_ok, e1) = >>=-eq-ok (api_token py env) _ e0 in
      let (insecure, insecure_ok, e2) = >>=-eq-ok (boolean py env "ALLOW_INSECURE_GRPC") _ e1 in
      let (checked, checked_ok, e3) = >>=-eq-ok (check_tls py env insecure) _ e2 in
      let (grpc, grpc_ok, e4) = >>=-eq-ok (positive_int py env "GRPC_PORT" "50051") _ e3 in
      let (http, http_ok, e5) = >>=-eq-ok (positive_int py env "HTTP_PORT" "8080") _ e4 in
      let (streams, streams_ok, e6) =
        >>=-eq-ok (positive_int py env "MAX_ACTIVE_STREAMS" "128") _ e5 in
      let (batch, batch_ok, e7) = >>=-eq-ok (positive_int py env "MAX_BATCH_SIZE" "32") _ e6 in
      let (wait, wait_ok, e8) = >>=-eq-ok (positive_float py env "MAX_BATCH_WAIT_MS" "1.0") _ e7 in
      let (pending, pending_ok, e9) =
        >>=-eq-ok (positive_int py env "MAX_PENDING_AUDIO_MS_PER_STREAM" "500") _ e8 in
      let (output, output_ok, e10) =
        >>=-eq-ok (positive_int py env "MAX_OUTPUT_AUDIO_MS_PER_STREAM" "500") _ e9 in
      let (idle, idle_ok, e11) =
        >>=-eq-ok (positive_float py env "STREAM_IDLE_TIMEOUT_S" "30.0") _ e10 in
      let (chunk, chunk_ok, e12) =
        >>=-eq-ok (positive_int py env "MAX_AUDIO_CHUNK_SAMPLES" "16000") _ e11 in
      let (grace, grace_ok, e13) =
        >>=-eq-ok (positive_float py env "GRACEFUL_SHUTDOWN_S" "10.0") _ e12 in
      subst Safe (ok-injective e13) (record {
        token = api_token-ok token token_ok;
        encrypted = (check_tls-ok insecure checked_ok).0;
        together = (check_tls-ok insecure checked_ok).1;
        ports = (positive_int-ok _ _ grpc grpc_ok, positive_int-ok _ _ http http_ok);
        streams = (positive_int-ok _ _ streams streams_ok, positive_int-ok _ _ batch batch_ok);
        pending = (positive_int-ok _ _ pending pending_ok, positive_int-ok _ _ output output_ok);
        chunks = positive_int-ok _ _ chunk chunk_ok;
        wait = positive_float-ok _ _ wait wait_ok;
        idle = positive_float-ok _ _ idle idle_ok;
        grace = positive_float-ok _ _ grace grace_ok;
      })
