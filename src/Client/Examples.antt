-- ===== src/Client/Examples.antt =====
-- Tests of the client on a stream of the server that begins at sample 0, and of a call of the worker.
use vox_lattice.Base.{ℕ, ◌≡◌, refl, ok, true, false, List, [], ◌∷◌, ◌++◌, map, length, arith}
use vox_lattice.Audio.Int16.{ℤ}
use vox_lattice.Audio.Examples.{exact}
use vox_lattice.Protocol.{StartStream, ClientMessage, start, accepted}
use vox_lattice.Server.Metrics
use vox_lattice.Server.Service.{stream_ended}
use vox_lattice.Server.Start.{ModelInfo, capabilities, IsStart}
use vox_lattice.Server.System.{System}
use vox_lattice.Server.System.Promises.{pcm_sent}
use vox_lattice.Server.System.Run.{turns}
use vox_lattice.Server.Fixture.{session, made, ready, begin, to_the_end, reach, audio_sent, program}
use vox_lattice.Plugin.Transport.{TransportConfig}
use vox_lattice.Plugin.Transport.Requests.Accepted.{Passes}
use vox_lattice.Plugin.Transport.Responses.Trace.{wire}
use vox_lattice.Client.{requests, exchange}
use vox_lattice.Client.Sends.{pcm_of, requests_lem}
use vox_lattice.Client.Accepts.{exchange_lem}
use mathlib.Core.List.{lookup}
use vox_lattice.Base.{some}
use vox_lattice.Audio.Rechunker
use vox_lattice.Server.Registry
use vox_lattice.Server.Session
use vox_lattice.Server.Session.{StreamSession}
use vox_lattice.Server.System
use vox_lattice.Server.System.{here}
use vox_lattice.Server.System.Run.{turns-Reach}
use vox_lattice.Server.Fixture.{string_discrete}
use vox_lattice.Server.Start.{
  text_value, authenticated, supplied, validate_start, start_violation, metadata_violation,
  queue_hops,
}
use vox_lattice.Server.Call.{
  EnhancementService, Opening, opened, gives, open_call, accept_first, registers, session_for,
}
use vox_lattice.Plugin.Transport.{AudioRequest}
use vox_lattice.Plugin.Transport.Text.{truncate_utf8}
use vox_lattice.Plugin.Transport.Requests.{
  call_metadata, start_message, start_metadata, truncated, set_item,
}
use vox_lattice.Composition.{Delivered, open_call-Delivered}

abbrev final : System ℤ ℕ
final = turns exact 4000 (to_the_end 0) (begin 0)

all_sent : final.sent ≡ audio_sent 0 ++ stream_ended 2 2 true ∷ []
unfolding program
all_sent = refl

abbrev pcm : List ℕ
pcm = 1 ∷ 0 ∷ 2 ∷ 0 ∷ []

abbrev model : ModelInfo
model = record {
  model_name = "FastEnhancer-B";
  model_revision = "49ab55a5";
  checkpoint_sha256 = "980ec00d";
  cuda_device_name = "NVIDIA L4";
}

abbrev config : TransportConfig
config = record {
  api_key = some "0123456789abcdef";
  reconnect_min_delay = 100;
  reconnect_max_delay = 2000;
  max_request_queue_samples = 8000;
  expected_model_revision = "49ab55a5";
  expected_model_sha256 = "980ec00d";
}

abbrev first : AudioRequest
first = record { start_sample = 480; pcm_s16le = pcm }

abbrev service : EnhancementService ℕ
service = record {
  api_token = "0123456789abcdef";
  max_pending_audio_ms_per_stream = 64;
  max_output_audio_ms_per_stream = 64;
  max_audio_chunk_samples = 4000;
  model = model;
  initialize_stream = ok 0;
  registry = record { max_active_streams = 128; sessions = [] };
  metrics = Metrics.init;
}

abbrev opening : EnhancementService ℕ × Opening ℤ ℕ
opening =
    open_call string_discrete (λ s. s) 1 (map (λ e. (e.0, text_value e.1)) (call_metadata config))
      (gives (start (start_message "abc" (("room_name", "lobby") ∷ []) first))) service

-- The session of the call.
abbrev of_call : StreamSession ℤ ℕ
of_call = record (session 480) { stream_id = "lk-abc" }

is_open : opening ≡ (opening.0, opened of_call (capabilities model 4000))
unfolding open_call accept_first registers session_for authenticated supplied validate_start
    start_violation metadata_violation Registry.add lookup queue_hops Session.init Rechunker.init
    start_message start_metadata truncated set_item truncate_utf8 call_metadata
is_open = refl

open_call-Delivered_example :
    (let s = turns exact 4000 (to_the_end 480) (System.start of_call opening.0.metrics ready) in
      Delivered config false false 480
        (capabilities model 4000)
        s.sent
        s.stream.session.input_samples)
open_call-Delivered_example =
    open_call-Delivered exact string_discrete (λ s. s) 1 config "abc" (("room_name", "lobby") ∷ [])
      first service opening.0 of_call (capabilities model 4000) is_open ready
      (turns exact 4000 (to_the_end 480) (System.start of_call opening.0.metrics ready)) false false
      (turns-Reach exact 4000 (to_the_end 480) (System.start of_call opening.0.metrics ready)
        (System.start of_call opening.0.metrics ready) here)
      refl refl refl

exchange_lem_example :
    (exchange pcm (accepted (capabilities model 4000) ∷ map wire final.sent)
      ≡ ok (pcm_sent (audio_sent 0)))
    × (length (pcm_sent (audio_sent 0)) ≡ length pcm)
exchange_lem_example =
    exchange_lem exact 4000 1 "call-1" 0 4 4 (session 0) Metrics.init ready (made 0) final
      (reach 0 (to_the_end 0)) (capabilities model 4000) pcm (audio_sent 0) 2 refl all_sent

requests_lem_example :
    (first : StartStream) × (messages : List ClientMessage) × (requests "4711"
        (1 ∷ 0 ∷ 2 ∷ 0 ∷ 3 ∷ 0 ∷ [])
        2
      ≡ ok (start first ∷ messages))
    × IsStart first
    × (first.input_start_sample ≡ 0)
    × (pcm_of messages ≡ 1 ∷ 0 ∷ 2 ∷ 0 ∷ 3 ∷ 0 ∷ [])
    × Passes exact 4000 (begin 0).stream messages
requests_lem_example =
    requests_lem exact 4000 "4711" (1 ∷ 0 ∷ 2 ∷ 0 ∷ 3 ∷ 0 ∷ []) 2 (begin 0).stream (omega arith)
      (omega arith) (omega arith) refl refl refl
