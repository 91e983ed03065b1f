-- ===== src/Client.antt =====
-- examples/grpc-client/client.py: the token, the checks of the certificates, the messages that it sends
-- (`_requests`) and its checks of the answer (`run`). What is read from files and printed is left out.
pub mod Sends
pub mod Accepts
mod Examples
use vox_lattice.Base.{
  ℕ, zero, suc, ◌+◌, ◌*◌, ◌/◌, String, str_eq, ◌<>◌, Bool, true, false, not, ◌&&◌, ◌||◌, Option,
  none, some, List, [], ◌∷◌, ◌++◌, length, take, drop, ◌==◌, if◌then◌else◌, Result, ok, raise,
  ◌>>=◌, value_error, runtime_error, os_error,
}
use vox_lattice.Protocol.{
  pcm_s16le, StartStream, AudioChunk, ClientMessage, start, audio, end_stream, StreamEnded,
  ServerMessage, accepted, ended, other,
}

-- A missing text and an empty one are both false for Python.
abbrev pub given : Option String → String
given none = ""
given (some t) = t

-- The source of the token: `argument` is `--api-key`, the others come from the environment; `read` gives
-- the text of a file without the white space around it.
unfoldable pub api_token :
    (read : String → Option String) (argument variable token_file : Option String) → Result String
api_token read argument variable token_file =
    let token = if str_eq (given argument) "" then given variable else given argument in
    let file = given token_file in
    let missing =
      value_error "--api-key, FASTENHANCER_API_TOKEN, or FASTENHANCER_API_TOKEN_FILE is required" in
    if not (str_eq token "") && not (str_eq file "")
    then raise (value_error "configure only one API token source")
    else if str_eq file ""
    then if str_eq token "" then raise missing else ok token
    else elim (read file) [
      | none ↦ raise os_error
      | some text ↦ if str_eq text "" then raise missing else ok text
    ]

-- The checks of the certificates: the error. A Boolean tells whether the argument is given.
unfoldable pub certificate_error : (certificate private_key tls : Bool) → Option String
certificate_error certificate private_key tls =
    if (certificate && not private_key) || (not certificate && private_key)
    then some "--client-certificate and --client-private-key are required together"
    else if certificate && not tls
    then some "client certificates require --tls"
    else none

-- The loop over the chunks, from `byte_start`, on what is left; `fuel` bounds the rounds.
unfoldable pub chunks : (fuel chunk_samples sequence byte_start : ℕ) → List ℕ → List ClientMessage
chunks zero chunk_samples sequence byte_start pcm = []
chunks (suc fuel) chunk_samples sequence byte_start [] = []
chunks (suc fuel) chunk_samples sequence byte_start (b ∷ pcm) =
    audio (record {
      sequence = sequence;
      input_start_sample = byte_start / 2;
      pcm_s16le = take (chunk_samples * 2) (b ∷ pcm);
    })
    ∷ chunks fuel chunk_samples (sequence + 1) (byte_start + chunk_samples * 2)
        (drop (chunk_samples * 2) (b ∷ pcm))

-- `pid` is the number of the process.
abbrev pub first_message : (pid : String) → StartStream
first_message pid = record {
  protocol_version = "1";
  stream_id = "smoke-" <> pid;
  input_start_sample = 0;
  sample_rate_hz = 16000;
  channels = 1;
  sample_format = pcm_s16le;
  metadata = ("client", "grpc-example") ∷ [];
}

-- `_requests`; `range` raises for a step of zero.
unfoldable pub requests :
    (pid : String) → List ℕ → (chunk_samples : ℕ) → Result (List ClientMessage)
unfolding chunks
requests pid pcm chunk_samples =
    if chunk_samples == 0
    then raise (value_error "range() arg 3 must not be zero")
    else ok (
        start (first_message pid)
        ∷ (chunks (length pcm) chunk_samples 0 0 pcm ++ end_stream true ∷ []))

-- What `run` keeps of the answer.
pub record Received : Type 0 where
  pub output : List ℕ
  pub expected_offset : ℕ
  pub last : Option StreamEnded

unfoldable pub receive : Received → List ServerMessage → Result Received
receive r [] = ok r
receive r (audio a ∷ ms) =
    let rest =
      receive
        (record r {
          output = r.output ++ a.pcm_s16le;
          expected_offset = r.expected_offset + a.valid_samples;
        })
        ms in
    if not (a.output_start_sample == r.expected_offset)
    then raise (runtime_error "server output offset mismatch")
    else if not (length a.pcm_s16le == a.valid_samples * 2)
    then raise (runtime_error "server output length mismatch")
    else rest
receive r (ended e ∷ ms) = receive (record r { last = some e }) ms
receive r (accepted _ ∷ ms) = receive r ms
receive r (other ∷ ms) = receive r ms

-- The checks after the last message.
unfoldable pub check_end : List ℕ → Received → Result (List ℕ)
check_end pcm r = elim r.last [
  | none ↦ raise (runtime_error "clean flush did not preserve exact sample count")
  | some e ↦
      if not (e.input_samples == length pcm / 2) || not (e.output_samples == length pcm / 2)
      then raise (runtime_error "clean flush did not preserve exact sample count")
      else if not (length r.output == length pcm)
      then raise (runtime_error "output PCM byte length differs from input")
      else ok r.output
]

-- The answer to `pcm`, from the first message to the last: the output.
unfoldable pub exchange : List ℕ → List ServerMessage → Result (List ℕ)
unfolding receive check_end
exchange pcm messages = do
  r ← receive (record { output = []; expected_offset = 0; last = none }) messages
  check_end pcm r
