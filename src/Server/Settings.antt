-- ===== src/Server/Settings.antt =====
-- services/fastenhancer-server/src/fastenhancer_server/settings.py. The environment is a function from names;
-- Python's parsing of numbers, `str.lower`, `str.strip`, `len` of a text and the reading of a file are an
-- interface. A `Path` is its text.
pub mod Accepted
use vox_lattice.Base.Float.{Float, float_leb, zero_float}
use vox_lattice.Base.{
  ℕ, String, str_eq, Bool, true, false, not, ◌&&◌, ◌||◌, Option, none, some, ltb, ◌==◌,
  if◌then◌else◌, Result, ok, raise, ◌>>=◌, value_error, os_error, ℤ, pos, negsuc, ◌<>◌,
}

-- What the module calls of Python's parsing and files: `none` is a `ValueError`, or an `OSError` for a file.
pub record Python : Type 0 where
  pub int : String → Option ℤ
  pub float : String → Option Float
  pub lower : String → String
  pub strip : String → String
  pub characters : String → ℕ
  pub read_text : String → Option String

abbrev pub Environment : Type 0
Environment = String → Option String

-- Whether an optional text is true for Python.
abbrev pub truthy : Option String → Bool
truthy none = false
truthy (some s) = not (str_eq s "")

abbrev pub get : Environment → String → String → String
get env name default = elim (env name) [ none ↦ default | some value ↦ value ]

-- `Path(value) if value else None`
abbrev pub path : Option String → Option String
path value = if truthy value then value else none

module _ (py : Python) (env : Environment) where
  unfoldable pub positive_int : String → String → Result ℕ
  positive_int name default = elim (py.int (get env name default)) [
    | none ↦ raise (value_error "invalid literal for int()")
    | some (pos n) ↦ if n == 0 then raise (value_error (name <> " must be positive")) else ok n
    | some (negsuc _) ↦ raise (value_error (name <> " must be positive"))
  ]

  unfoldable pub positive_float : String → String → Result Float
  unfolding float_leb
  positive_float name default = elim (py.float (get env name default)) [
    | none ↦ raise (value_error "could not convert string to float")
    | some x ↦
        if float_leb x zero_float then raise (value_error (name <> " must be positive")) else ok x
  ]

  -- `_boolean` with its default `False`.
  unfoldable pub boolean : String → Result Bool
  boolean name =
      let raw = py.lower (get env name "false") in
      if str_eq raw "true" || str_eq raw "false"
      then ok (str_eq raw "true")
      else raise (value_error (name <> " must be true or false"))

pub record ServerSettings : Type 0 where
  pub grpc_host : String
  pub grpc_port : ℕ
  pub http_host : String
  pub http_port : ℕ
  pub checkpoint_path : String
  pub manifest_path : String
  pub model_config_path : String
  pub cuda_device : String
  pub api_token : String
  pub allow_insecure : Bool
  pub tls_certificate : Option String
  pub tls_private_key : Option String
  pub tls_client_ca : Option String
  pub max_active_streams : ℕ
  pub max_batch_size : ℕ
  pub max_batch_wait_ms : Float
  pub max_pending_audio_ms_per_stream : ℕ
  pub max_output_audio_ms_per_stream : ℕ
  pub stream_idle_timeout_s : Float
  pub max_audio_chunk_samples : ℕ
  pub graceful_shutdown_s : Float

module _ (py : Python) (env : Environment) where
  unfoldable pub long : String → Result String
  long token =
      if ltb (py.characters token) 16
      then raise (value_error "a non-default API token of at least 16 characters is required")
      else ok token

  -- The token, from its variable or its file.
  unfoldable pub api_token : Result String
  unfolding long
  api_token =
      let token = env "FASTENHANCER_API_TOKEN" in
      let token_file = env "FASTENHANCER_API_TOKEN_FILE" in
      if truthy token && truthy token_file
      then raise (value_error "configure only one of FASTENHANCER_API_TOKEN or *_FILE")
      else if truthy token_file
      then elim (py.read_text (get env "FASTENHANCER_API_TOKEN_FILE" "")) [
        | none ↦ raise os_error
        | some text ↦ long (py.strip text)
      ]
      else long (get env "FASTENHANCER_API_TOKEN" "")

  -- The checks of TLS.
  unfoldable pub check_tls : Bool → Result {0} Unit
  check_tls allow_insecure =
      let certificate = truthy (env "TLS_CERTIFICATE") in
      let private_key = truthy (env "TLS_PRIVATE_KEY") in
      if not allow_insecure && (not certificate || not private_key)
      then raise (value_error "TLS_CERTIFICATE and TLS_PRIVATE_KEY are required")
      else if (certificate && not private_key) || (not certificate && private_key)
      then raise (value_error "TLS certificate and private key must be configured together")
      else ok tt

  unfoldable pub from_environment : Result ServerSettings
  unfolding api_token check_tls positive_int positive_float boolean
  from_environment = do
    token ← api_token
    allow_insecure ← boolean py env "ALLOW_INSECURE_GRPC"
    _ ← check_tls allow_insecure
    grpc_port ← positive_int py env "GRPC_PORT" "50051"
    http_port ← positive_int py env "HTTP_PORT" "8080"
    max_active_streams ← positive_int py env "MAX_ACTIVE_STREAMS" "128"
    max_batch_size ← positive_int py env "MAX_BATCH_SIZE" "32"
    max_batch_wait_ms ← positive_float py env "MAX_BATCH_WAIT_MS" "1.0"
    max_pending ← positive_int py env "MAX_PENDING_AUDIO_MS_PER_STREAM" "500"
    max_output ← positive_int py env "MAX_OUTPUT_AUDIO_MS_PER_STREAM" "500"
    stream_idle_timeout_s ← positive_float py env "STREAM_IDLE_TIMEOUT_S" "30.0"
    max_audio_chunk_samples ← positive_int py env "MAX_AUDIO_CHUNK_SAMPLES" "16000"
    graceful_shutdown_s ← positive_float py env "GRACEFUL_SHUTDOWN_S" "10.0"
    ok (record {
      grpc_host = get env "GRPC_HOST" "0.0.0.0";
      grpc_port = grpc_port;
      http_host = get env "HTTP_HOST" "0.0.0.0";
      http_port = http_port;
      checkpoint_path = get env "MODEL_CHECKPOINT" "/opt/model/00500.pth";
      manifest_path = get env "MODEL_MANIFEST" "/opt/model/manifest.lock.json";
      model_config_path = get env "MODEL_CONFIG" "/opt/model/config.yaml";
      cuda_device = get env "CUDA_DEVICE" "cuda:0";
      api_token = token;
      allow_insecure = allow_insecure;
      tls_certificate = path (env "TLS_CERTIFICATE");
      tls_private_key = path (env "TLS_PRIVATE_KEY");
      tls_client_ca = path (env "TLS_CLIENT_CA");
      max_active_streams = max_active_streams;
      max_batch_size = max_batch_size;
      max_batch_wait_ms = max_batch_wait_ms;
      max_pending_audio_ms_per_stream = max_pending;
      max_output_audio_ms_per_stream = max_output;
      stream_idle_timeout_s = stream_idle_timeout_s;
      max_audio_chunk_samples = max_audio_chunk_samples;
      graceful_shutdown_s = graceful_shutdown_s;
    })
