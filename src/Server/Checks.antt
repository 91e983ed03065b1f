-- ===== src/Server/Checks.antt =====
-- Tests of the checks before a stream, of opening a call, of loading a model, of the settings and
-- of the pipeline.
use vox_lattice.Server.Fixture.{string_discrete}
use vox_lattice.Base.Float.{number, float_leb}
use vox_lattice.Base.{
  ℕ, ◌+◌, ◌≡◌, ◌↔◌, refl, len, true, none, some, List, [], ◌∷◌, replicate, length-replicate, ok,
  pos, str_eq, if◌then◌else◌,
}
use vox_lattice.Protocol.{StartStream, StreamAccepted, pcm_s16le, start}
use vox_lattice.Audio.Rechunker.{SourceHop}
use vox_lattice.Server.Start.{
  validate_start, passed, IsStart, validate_start_iff, start_violation, metadata_violation,
  supplied, authenticated, MetadataValue, text_value, ModelInfo, capabilities, queue_hops,
}
use vox_lattice.Server.Settings.{
  Python, Environment, ServerSettings, positive_int, positive_float, boolean, long, api_token,
  check_tls, from_environment,
}
use vox_lattice.Server.Settings.Accepted.{Safe, from_environment-Safe}
use vox_lattice.Server.Pipeline.{
  StreamingModel, init, enhance_all, Rows, aligned, inputs, enhance_all-aligned,
}
use mathlib.Core.List.{lookup}
use vox_lattice.Base.{String, false}
use vox_lattice.Audio.Rechunker
use vox_lattice.Server.Metrics
use vox_lattice.Server.Registry
use vox_lattice.Server.Session
use vox_lattice.Server.Session.{StreamSession}
use vox_lattice.Server.Call.{
  EnhancementService, Opening, opened, gives, open_call, accept_first, registers, session_for,
  Opened, open_call-Opened,
}
use vox_lattice.Server.Model.{
  Object, text, number, Host, load, validate_device, validate_manifest, validate_hash, to_str,
  revision, rf_of, validate_config, validate_parameters, first_mismatch, every,
}
use vox_lattice.Server.Model.Loaded.{Loaded, load-Loaded}

abbrev call : StartStream
call = record {
  protocol_version = "1";
  stream_id = "call-1";
  input_start_sample = 480;
  sample_rate_hz = 16000;
  channels = 1;
  sample_format = pcm_s16le;
  metadata = ("room_name", "lobby") ∷ [];
}

validate_start_iff_example : (validate_start (start call) ≡ passed call) ↔ IsStart call
validate_start_iff_example = validate_start_iff call

abbrev info : ModelInfo
info = record {
  model_name = "FastEnhancer-B";
  model_revision = "49ab55a5";
  checkpoint_sha256 = "980ec00d";
  cuda_device_name = "NVIDIA L4";
}

-- Numbers as far as the test needs them, and no files.
abbrev python : Python
python = record {
  int = λ s. if str_eq s "0" then some (pos 0) else some (pos 50051);
  float = λ s. some (number (pos 1));
  lower = λ s. s;
  strip = λ s. s;
  characters = len;
  read_text = λ s. none;
}

abbrev environment : Environment
environment = λ name.
    if str_eq name "FASTENHANCER_API_TOKEN"
    then some "0123456789abcdef"
    else if str_eq name "ALLOW_INSECURE_GRPC"
    then some "true"
    else none

abbrev settings : ServerSettings
settings = record {
  grpc_host = "0.0.0.0";
  grpc_port = 50051;
  http_host = "0.0.0.0";
  http_port = 50051;
  checkpoint_path = "/opt/model/00500.pth";
  manifest_path = "/opt/model/manifest.lock.json";
  model_config_path = "/opt/model/config.yaml";
  cuda_device = "cuda:0";
  api_token = "0123456789abcdef";
  allow_insecure = true;
  tls_certificate = none;
  tls_private_key = none;
  tls_client_ca = none;
  max_active_streams = 50051;
  max_batch_size = 50051;
  max_batch_wait_ms = number (pos 1);
  max_pending_audio_ms_per_stream = 50051;
  max_output_audio_ms_per_stream = 50051;
  stream_idle_timeout_s = number (pos 1);
  max_audio_chunk_samples = 50051;
  graceful_shutdown_s = number (pos 1);
}

read : from_environment python environment ≡ ok settings
unfolding from_environment api_token long check_tls positive_int positive_float boolean float_leb
read = refl

from_environment-Safe_example : Safe python environment settings
from_environment-Safe_example = from_environment-Safe python environment settings read

-- A model that doubles each sample and counts its calls.
doubled : List ℕ → List ℕ
doubled [] = []
doubled (x ∷ xs) = (x + x) ∷ doubled xs

abbrev doubling : StreamingModel ℕ ℕ
doubling = record { initial = 0; infer = λ xs calls. ok (doubled xs, calls + 1); silence = 0 }

abbrev hop : ℕ → ℕ → SourceHop ℕ
hop first value = record {
  start_sample = first;
  samples = replicate 256 value;
  valid_samples = 256;
}

enhance_all-aligned_example :
    (row : List ℕ) × (rows : List (List ℕ)) × Rows doubling 0
      (inputs doubling (hop 0 3 ∷ hop 256 4 ∷ []))
      (row ∷ rows)
    × (enhance_all doubling (hop 0 3 ∷ hop 256 4 ∷ []) (init doubling)
        ≡ ok (aligned doubling (hop 0 3 ∷ hop 256 4 ∷ []) rows))
enhance_all-aligned_example =
    enhance_all-aligned doubling (λ x c size. (doubled x, c + 1, refl)) (hop 0 3) (hop 256 4 ∷ [])
      (length-replicate {A = ℕ} 256 3, (length-replicate {A = ℕ} 256 4, tt))

abbrev service : EnhancementService ℕ
service = record {
  api_token = "0123456789abcdef";
  max_pending_audio_ms_per_stream = 500;
  max_output_audio_ms_per_stream = 500;
  max_audio_chunk_samples = 16000;
  model = info;
  initialize_stream = ok 0;
  registry = record { max_active_streams = 128; sessions = [] };
  metrics = Metrics.init;
}

abbrev bearer : List (String × MetadataValue)
bearer = ("authorization", text_value "Bearer 0123456789abcdef") ∷ []

abbrev opening : EnhancementService ℕ × Opening ℕ ℕ
opening = open_call string_discrete (λ s. s) 7 bearer (gives (start call)) service

abbrev session : StreamSession ℕ ℕ
session = record {
  object_id = 7;
  stream_id = "call-1";
  input_start_sample = 480;
  expected_input_sample = 480;
  expected_sequence = 0;
  input_samples = 0;
  output_samples = 0;
  output_sequence = 0;
  caches = 0;
  rechunker = record {
    parts = [];
    pending_samples = 0;
    next_sample = 480;
    max_pending_samples = 7936;
  };
  input_queue = record { maxsize = 31; items = [] };
  output_queue = record { maxsize = 31; items = [] };
  pending_source = none;
  scheduled = false;
  ended = false;
  cancelled = false;
}

abbrev answer : StreamAccepted
answer = capabilities info 16000

is_opened : opening ≡ (opening.0, opened session answer)
unfolding open_call accept_first registers session_for authenticated supplied validate_start
    start_violation metadata_violation Registry.add lookup queue_hops Session.init Rechunker.init
is_opened = refl

open_call-Opened_example :
    Opened string_discrete (λ s. s) 7 bearer (gives (start call)) service opening.0 session answer
open_call-Opened_example =
    open_call-Opened string_discrete (λ s. s) 7 bearer (gives (start call)) service opening.0
      session answer is_opened

abbrev manifest : Object
manifest = λ key.
    if str_eq key "model"
    then some (text "FastEnhancer-B")
    else if str_eq key "sample_rate_hz"
    then some (number 16000)
    else if str_eq key "n_fft"
    then some (number 512)
    else if str_eq key "rnn_blocks"
    then some (number 3)
    else if str_eq key "rf_freq"
    then some (number 24)
    else if str_eq key "rf_hidden"
    then some (number 36)
    else if str_eq key "checkpoint_sha256"
    then some (text "980ec00d")
    else if str_eq key "upstream_commit"
    then some (text "49ab55a5")
    else some (number 256)

abbrev host : Host
host = record {
  cuda_available = true;
  device = ("cuda", some 0);
  device_count = 1;
  device_name = "NVIDIA L4";
  manifest = manifest;
  shown = λ v. "";
  checkpoint_hash = "980ec00d";
  kwargs = λ key. if str_eq key "hop_size" then some (number 256) else some (number 512);
  rnnformer_kwargs = some (λ key.
      if str_eq key "num_blocks"
      then some (number 3)
      else if str_eq key "freq"
      then some (number 24)
      else some (number 36));
  has_state_dict = true;
  parameters = record { on_device = true; is_float32 = true } ∷ [];
}

loads : load host ≡ ok info
unfolding load validate_device validate_manifest validate_hash revision validate_config
    validate_parameters first_mismatch every to_str rf_of
loads = refl

load-Loaded_example : Loaded host info
load-Loaded_example = load-Loaded host info loads
