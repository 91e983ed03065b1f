-- ===== src/Server/Start.antt =====
-- service.py before a stream exists: `_authenticated`, `_capabilities`, `_validate_start`, and the sizes
-- of the queues that `Enhance` gives a session.
use vox_lattice.Base.{
  ℕ, ◌*◌, ◌/◌, ◌≤◌, ◌<◌, max, ◌≡◌, ◌↔◌, refl, String, len, ◌<>◌, str_eq, eq_iff, Bool, true, false,
  not, ◌||◌, Option, none, some, List, [], ◌∷◌, ltb, ◌==◌, if◌then◌else◌, arith, length,
}
use vox_lattice.Audio.Rechunker.{sample_rate_hz, hop_samples}
use vox_lattice.Protocol.{
  SampleFormat, unspecified, unnamed, pcm_s16le, StartStream, ClientMessage, start, StreamAccepted,
}
use vox_lattice.Server.Metrics.{StatusCode, failed_precondition, invalid_argument}

abbrev pub protocol_version : String
protocol_version = "1"

abbrev pub max_stream_id_bytes : ℕ
max_stream_id_bytes = 128

abbrev pub max_metadata_entries : ℕ
max_metadata_entries = 16

abbrev pub max_metadata_key_bytes : ℕ
max_metadata_key_bytes = 64

abbrev pub max_metadata_value_bytes : ℕ
max_metadata_value_bytes = 256

abbrev pub algorithmic_delay_samples : ℕ
algorithmic_delay_samples = 256

-- What a check gives: a value, or the `ProtocolViolation` that it raises.
pub data Checked {ℓ} (A : Type ℓ) : Type ℓ where
  passed : A → Checked A
  violates : StatusCode → String → Checked A

abbrev pub is_pcm : SampleFormat → Bool
is_pcm pcm_s16le = true
is_pcm unspecified = false
is_pcm (unnamed _) = false

-- The loop over `start.metadata.items()`: the first violation.
unfoldable pub metadata_violation : List (String × String) → Option (StatusCode × String)
metadata_violation [] = none
metadata_violation ((key, value) ∷ entries) =
    let rest = metadata_violation entries in
    if len key == 0 || ltb max_metadata_key_bytes (len key)
    then some (invalid_argument, "invalid metadata key")
    else if ltb max_metadata_value_bytes (len value)
    then some (invalid_argument, "metadata value too long")
    else rest

unfoldable pub start_violation : StartStream → Option (StatusCode × String)
unfolding metadata_violation
start_violation s =
    if not (str_eq s.protocol_version protocol_version)
    then some (failed_precondition, "unsupported protocol version")
    else if len s.stream_id == 0 || ltb max_stream_id_bytes (len s.stream_id)
    then some (invalid_argument, "invalid stream ID length")
    else if not (s.sample_rate_hz == sample_rate_hz) || not (s.channels == 1)
    then some (invalid_argument, "audio must be 16000 Hz mono")
    else if not (is_pcm s.sample_format)
    then some (invalid_argument, "audio must be PCM-S16LE")
    else if ltb max_metadata_entries (length s.metadata)
    then some (invalid_argument, "too many metadata entries")
    else metadata_violation s.metadata

-- `_validate_start`
unfoldable pub validate_start : ClientMessage → Checked StartStream
unfolding start_violation
validate_start (start s) = elim (start_violation s) [
  | none ↦ passed s
  | some (status, detail) ↦ violates status detail
]
validate_start _ = violates failed_precondition "StartStream must be first"

-- The limits of the protocol on the entries of the metadata.
abbrev pub EntriesFit : List (String × String) → Type 0
EntriesFit [] = Unit
EntriesFit ((key, value) ∷ entries) =
    (0 < len key)
    × (len key ≤ max_metadata_key_bytes)
    × (len value ≤ max_metadata_value_bytes)
    × EntriesFit entries

-- What the protocol asks of a `StartStream`.
pub record IsStart (s : StartStream) : Type 0 where
  pub version : s.protocol_version ≡ protocol_version
  pub some_id : 0 < len s.stream_id
  pub short_id : len s.stream_id ≤ max_stream_id_bytes
  pub rate : s.sample_rate_hz ≡ sample_rate_hz
  pub mono : s.channels ≡ 1
  pub format : s.sample_format ≡ pcm_s16le
  pub entries : length s.metadata ≤ max_metadata_entries
  pub entries_fit : EntriesFit s.metadata

-- An item of the call's metadata; a value is a text or bytes.
pub data MetadataValue : Type 0 where
  text_value : String → MetadataValue
  binary_value : List ℕ → MetadataValue

module _ (lower : String → String) where
  -- The loop of `_authenticated`: the first text under the key, or the empty one.
  unfoldable pub supplied : List (String × MetadataValue) → String
  supplied [] = ""
  supplied ((key, binary_value _) ∷ items) = supplied items
  supplied ((key, text_value value) ∷ items) =
      let rest = supplied items in if str_eq (lower key) "authorization" then value else rest

  -- `hmac.compare_digest` is equality; the encodings of two texts are equal when the texts are.
  unfoldable pub authenticated : String → List (String × MetadataValue) → Bool
  unfolding supplied
  authenticated api_token items = str_eq (supplied items) ("Bearer " <> api_token)

-- The fields of a `StreamingModel` that are no tensors.
pub record ModelInfo : Type 0 where
  pub model_name : String
  pub model_revision : String
  pub checkpoint_sha256 : String
  pub cuda_device_name : String

-- `_capabilities`
unfoldable pub capabilities : ModelInfo → ℕ → StreamAccepted
capabilities model max_audio_chunk_samples = record {
  protocol_version = protocol_version;
  model_name = model.model_name;
  model_revision = model.model_revision;
  model_sha256 = model.checkpoint_sha256;
  sample_rate_hz = sample_rate_hz;
  channels = 1;
  sample_format = pcm_s16le;
  hop_samples = hop_samples;
  algorithmic_delay_samples = algorithmic_delay_samples;
  cuda_device = model.cuda_device_name;
  max_audio_chunk_samples = max_audio_chunk_samples;
}

-- `queue_hops` and `output_hops` of `Enhance`, from a number of milliseconds.
unfoldable pub queue_hops : ℕ → ℕ
queue_hops milliseconds = max 1 (milliseconds * sample_rate_hz / 1000 / hop_samples)

metadata_violation_lem :
    (entries : List (String × String)) → (metadata_violation entries ≡ none) ↔ EntriesFit entries
unfolding metadata_violation
metadata_violation_lem [] = (λ _. tt, λ _. refl)
metadata_violation_lem ((key, value) ∷ entries) = ground (arith, metadata_violation_lem entries)

-- A StartStream passes the checks of the server exactly when it meets the protocol: version 1,
-- an ID of 1 to 128 bytes, 16000 Hz mono PCM-S16LE, at most 16 entries of metadata, each with
-- a key of 1 to 64 bytes and a value of at most 256 bytes.
pub validate_start_iff : (s : StartStream) → (validate_start (start s) ≡ passed s) ↔ IsStart s
unfolding validate_start
validate_start_iff s =
    ground (arith, metadata_violation_lem s.metadata, eq_iff s.protocol_version "1")
