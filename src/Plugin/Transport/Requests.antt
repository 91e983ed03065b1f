-- ===== src/Plugin/Transport/Requests.antt =====
-- transport.py, `_request_iterator`: the messages that one call sends.
pub mod Accepted
use vox_lattice.Base.{
  ℕ, ◌+◌, ◌/◌, String, len, ◌<>◌, str_eq, Bool, true, false, not, ◌||◌, Option, none, some, List,
  [], ◌∷◌, ◌==◌, if◌then◌else◌, length, take,
}
use vox_lattice.Protocol.{
  pcm_s16le, StartStream, AudioChunk, ClientMessage, start, audio, end_stream,
}
use vox_lattice.Plugin.Transport.{
  AudioRequest, Request, audio, end_request, stop_request, reset_request, TransportConfig,
}
use vox_lattice.Plugin.Transport.Text.{truncate_utf8}

-- `d[key] = value`: a key that is there keeps its place.
unfoldable pub set_item : String → String → List (String × String) → List (String × String)
set_item key value [] = (key, value) ∷ []
set_item key value ((k, v) ∷ rest) =
    if str_eq k key then (key, value) ∷ rest else (k, v) ∷ set_item key value rest

-- The comprehension over the items, on top of the entries before.
unfoldable pub truncated : List (String × String) → List (String × String) → List (String × String)
unfolding set_item
truncated entries [] = entries
truncated entries ((key, value) ∷ items) =
    truncated
      (if len key == 0
        then entries
        else set_item (truncate_utf8 key 64) (truncate_utf8 value 256) entries)
      items

-- The metadata of a call, from what the provider gives.
unfoldable pub start_metadata : List (String × String) → List (String × String)
unfolding truncated
start_metadata items = truncated [] (take 16 items)

-- `hex` is the 32 digits of a fresh UUID.
unfoldable pub start_message : String → List (String × String) → AudioRequest → StartStream
start_message hex items first = record {
  protocol_version = "1";
  stream_id = "lk-" <> hex;
  input_start_sample = first.start_sample;
  sample_rate_hz = 16000;
  channels = 1;
  sample_format = pcm_s16le;
  metadata = start_metadata items;
}

-- The loop, on the requests that it gets in turn and on what `_reset.is_set()` answers at each.
unfoldable pub iterate : ℕ → ℕ → List (Request × Bool) → List ClientMessage
iterate sequence expected_sample [] = []
iterate sequence expected_sample ((Request.audio request, reset) ∷ rest) =
    let more = iterate (sequence + 1) (expected_sample + length request.pcm_s16le / 2) rest in
    if not (request.start_sample == expected_sample) || reset
    then []
    else ClientMessage.audio (record {
      sequence = sequence;
      input_start_sample = request.start_sample;
      pcm_s16le = request.pcm_s16le;
    })
      ∷ more
iterate sequence expected_sample ((end_request flush, reset) ∷ rest) =
    if not reset then end_stream flush ∷ [] else []
iterate sequence expected_sample ((_, reset) ∷ rest) = []

unfoldable pub request_iterator :
    String
    → List (String × String)
    → AudioRequest
    → Bool
    → List (Request × Bool)
    → List ClientMessage
unfolding iterate start_message
request_iterator hex items first reset rest =
    start (start_message hex items first)
    ∷ iterate 0 first.start_sample ((Request.audio first, reset) ∷ rest)

-- `_metadata`: the metadata of each call.
unfoldable pub call_metadata : TransportConfig → List (String × String)
call_metadata config = elim config.api_key [
  | none ↦ []
  | some api_key ↦ ("authorization", "Bearer " <> api_key) ∷ []
]
