-- ===== src/Plugin/Transport/Responses.antt =====
-- transport.py, `_validate_accepted` and the loop of `_run_generation` over the server's messages.
pub mod Trace
use vox_lattice.Base.{
  ℕ, ◌+◌, ◌*◌, ◌/◌, ◌<◌, ◌≡◌, String, str_eq, Bool, true, false, not, ◌||◌, ◌&&◌, Option, none,
  some, List, [], ◌∷◌, ◌==◌, if◌then◌else◌, length,
}
use vox_lattice.Protocol.{
  SampleFormat, pcm_s16le, StreamAccepted, EnhancedAudio, ServerMessage, accepted, audio, ended,
  other,
}
use vox_lattice.Server.Start.{is_pcm}
use vox_lattice.Plugin.Transport.{TransportConfig}

abbrev pub expected_model_name : String
expected_model_name = "FastEnhancer-B"

-- `_validate_accepted`, whether it returns
unfoldable pub accepted_matches : TransportConfig → StreamAccepted → Bool
accepted_matches config a =
    str_eq a.protocol_version "1"
    && (str_eq a.model_name expected_model_name
        && (str_eq a.model_revision config.expected_model_revision
            && (str_eq a.model_sha256 config.expected_model_sha256
                && (a.sample_rate_hz == 16000
                    && (a.channels == 1
                        && (is_pcm a.sample_format
                            && (a.hop_samples == 256 && a.algorithmic_delay_samples == 256)))))))

-- How `_run_generation` ends: it returns, or raises a `ValueError` or the error of a lost connection.
pub data Ending : Type 0 where
  returns : Ending
  mismatch : String → Ending
  connection_lost : Ending

-- A call of `on_audio`.
pub record Delivery : Type 0 where
  pub start_sample : ℕ
  pub pcm : List ℕ

-- The checks on one message of audio, and the exception of the first that fails.
unfoldable pub audio_mismatch : ℕ → ℕ → EnhancedAudio → Option String
audio_mismatch output_sequence expected_output a =
    if not (a.output_sequence == output_sequence)
    then some "server output sequence is not contiguous"
    else if not (a.output_start_sample == expected_output)
    then some "server output offset has a gap or overlap"
    else if a.valid_samples == 0 || not (length a.pcm_s16le == a.valid_samples * 2)
    then some "server output byte count is invalid"
    else none

-- The loop once the stream is accepted. `at_end` is what follows the messages.
unfoldable pub receive_audio : ℕ → ℕ → Ending → List ServerMessage → List Delivery × Ending
receive_audio output_sequence expected_output at_end [] = ([], at_end)
receive_audio output_sequence expected_output at_end (audio a ∷ rest) =
    let (deliveries, ending) =
      receive_audio (output_sequence + 1) (expected_output + a.valid_samples) at_end rest in
    elim (audio_mismatch output_sequence expected_output a) [
      | some detail ↦ ([], mismatch detail)
      | none ↦
          (record { start_sample = a.output_start_sample; pcm = a.pcm_s16le } ∷ deliveries, ending)
    ]
receive_audio output_sequence expected_output at_end (ended _ ∷ rest) = ([], returns)
receive_audio output_sequence expected_output at_end (_ ∷ rest) =
    ([], mismatch "unexpected server response")

-- `_run_generation`, on all messages of the call. `failed` tells whether grpc raises at their end.
unfoldable pub run_generation :
    TransportConfig → Bool → Bool → ℕ → List ServerMessage → List Delivery × Ending
unfolding receive_audio accepted_matches
run_generation config stop failed first_sample messages =
    let at_end = if failed || not stop then connection_lost else returns in
    elim messages [
      | [] ↦ ([], at_end)
      | accepted a ∷ rest ↦
          if accepted_matches config a
          then receive_audio 0 first_sample at_end rest
          else ([], mismatch "server capabilities do not match the locked FastEnhancer contract")
      | _ ∷ rest ↦ ([], mismatch "StreamAccepted must be the first server message")
    ]
