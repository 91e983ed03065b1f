-- ===== src/Protocol.antt =====
-- proto/fastenhancer/v1/enhancement.proto: the messages that the plugin and the server exchange. A
-- `string` is a native text, whose length is its number of bytes in UTF-8; a map is a list of entries.
use vox_lattice.Base.{ℕ, String, Bool, List}

pub data SampleFormat : Type 0 where
  unspecified pcm_s16le : SampleFormat
  -- a value that the protocol does not name, which proto3 hands over
  unnamed : (value : ℕ) → SampleFormat

pub record StartStream : Type 0 where
  pub protocol_version : String
  pub stream_id : String
  pub input_start_sample : ℕ
  pub sample_rate_hz : ℕ
  pub channels : ℕ
  pub sample_format : SampleFormat
  pub metadata : List (String × String)

pub record AudioChunk : Type 0 where
  pub sequence : ℕ
  pub input_start_sample : ℕ
  pub pcm_s16le : List ℕ

-- `no_body` has no field of the `oneof`.
pub data ClientMessage : Type 0 where
  start : StartStream → ClientMessage
  audio : AudioChunk → ClientMessage
  end_stream : (flush : Bool) → ClientMessage
  no_body : ClientMessage

pub record StreamAccepted : Type 0 where
  pub protocol_version : String
  pub model_name : String
  pub model_revision : String
  pub model_sha256 : String
  pub sample_rate_hz : ℕ
  pub channels : ℕ
  pub sample_format : SampleFormat
  pub hop_samples : ℕ
  pub algorithmic_delay_samples : ℕ
  pub cuda_device : String
  pub max_audio_chunk_samples : ℕ

pub record EnhancedAudio : Type 0 where
  pub output_sequence : ℕ
  pub output_start_sample : ℕ
  pub pcm_s16le : List ℕ
  pub valid_samples : ℕ

pub record StreamEnded : Type 0 where
  pub input_samples : ℕ
  pub output_samples : ℕ
  pub flushed : Bool

-- The `error` body, which no server of this repository sends, stands for every other body.
pub data ServerMessage : Type 0 where
  accepted : StreamAccepted → ServerMessage
  audio : EnhancedAudio → ServerMessage
  ended : StreamEnded → ServerMessage
  other : ServerMessage
