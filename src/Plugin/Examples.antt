-- ===== src/Plugin/Examples.antt =====
-- Tests of the processor: a response budget of 192 samples, frames of 160.
use vox_lattice.Base.{
  ℕ, ◌+◌, ◌-◌, ◌*◌, ◌≤◌, max, ◌≡◌, refl, ◌↔◌, len, pos, none, some, true, List, [], ◌∷◌, ok, arith,
  length, replicate, length-replicate,
}
use vox_lattice.Timeline.ContiguousPcm
use vox_lattice.Base.Float.{number, float_leb, float_ltb}
use vox_lattice.Plugin.Processor.{
  Processor, AudioFrame, init, due, emit, process, receive_audio, admit, to_send,
}
use vox_lattice.Plugin.Processor.Effects.{Inv, Source}
use vox_lattice.Plugin.Processor.Kept.{init-Inv}
use vox_lattice.Plugin.Processor.Process.{Accepted, process_lem}
use vox_lattice.Plugin.Processor.Safety.{here, next, admits, receives, fallback_is_there}
use vox_lattice.Plugin.Config.{
  RemoteFastEnhancerConfig, IsConfig, config_error, entry_exceeds, config_error_iff,
}

abbrev config : RemoteFastEnhancerConfig
config = record {
  endpoint = "enhancer:50051";
  api_key = some "0123456789abcdef";
  tls = true;
  root_certificates = none;
  client_certificate_chain = none;
  client_private_key = none;
  connect_timeout = number (pos 2000);
  output_delay = number (pos 12);
  max_buffer_ms = pos 500;
  max_request_queue_ms = pos 500;
  reconnect_min_delay = number (pos 100);
  reconnect_max_delay = number (pos 2000);
  stream_metadata = some (("room_name", "lobby") ∷ []);
  expected_model_revision = "49ab55a57e3a064d94c6412cd0f0a383a55ca0f8";
  expected_model_sha256 = "980ec00d9c3cb0497893c815c718a2fe44970329ae8477d22596d0a1373f2382";
}

config_error_iff_example : (config_error len config ≡ none) ↔ IsConfig len config
config_error_iff_example = config_error_iff len config

-- The configuration is accepted.
config_accepted : config_error len config ≡ none
unfolding config_error entry_exceeds float_leb float_ltb
config_accepted = refl

abbrev frame : AudioFrame
frame = record {
  data_bytes = replicate 320 5;
  sample_rate = 16000;
  num_channels = 1;
  samples_per_channel = 160;
}

abbrev new : Processor
new = init 192 500

frame-Accepted : Accepted frame new
frame-Accepted = record {
  rate = refl;
  mono = refl;
  size = length-replicate {A = ℕ} 320 5;
  fits = omega arith;
}

process_lem_example :
    (q : Processor) × (out : List ℕ) × (process true frame new ≡ ok (q, out))
    × Inv q
    × (0 * 2 + length out ≡ q.output_cursor * 2)
    × (q.input_cursor ≡ 0 + 160)
    × (q.output_cursor ≡ max 0 (q.input_cursor - (256 + 192)))
process_lem_example =
    process_lem true frame new (init-Inv 192 500) refl refl frame-Accepted (omega arith)

abbrev sent : Processor
sent = record new {
  input_cursor = 160;
  raw = record { start_sample = 0; bytes = replicate 320 5 };
  metrics = record new.metrics { frames_in = 1; samples_in = 160 };
}

admitted : admit frame new ≡ ok (sent, to_send 0)
unfolding admit ContiguousPcm.append ContiguousPcm.end_sample
admitted = refl

fallback_is_there_example :
    (let p = (receive_audio 1 0 (7 ∷ 8 ∷ []) sent).0 in
      (q : Processor) × (out : List ℕ) × (emit 160 p ≡ ok (q, out))
      × (length out ≡ due 160 p * 2)
      × Source p (due 160 p) out
      × (q.output_cursor ≤ q.input_cursor))
unfolding receive_audio
fallback_is_there_example =
    fallback_is_there 192 500 160 (receive_audio 1 0 (7 ∷ 8 ∷ []) sent).0
      (next (next here (admits frame sent (to_send 0) admitted)) (receives 1 0 (7 ∷ 8 ∷ []))) refl
