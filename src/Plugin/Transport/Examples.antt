-- ===== src/Plugin/Transport/Examples.antt =====
-- Tests of the worker: its queue, one call, and the loop over four turns.
use vox_lattice.Base.{
  ℕ, ◌+◌, ◌*◌, ◌^◌, min, length, ◌≤◌, ◌≡◌, ◌≢◌, ◌↔◌, refl, inr, String, true, false, none, some,
  List, [], ◌∷◌, ◌++◌, map, arith,
}
use vox_lattice.Server.Queue
use vox_lattice.Audio.Examples.{exact}
use vox_lattice.Protocol.{
  StartStream, ClientMessage, start, StreamAccepted, pcm_s16le, ServerMessage, accepted, audio,
}
use vox_lattice.Server.Start.{IsStart, authenticated, text_value}
use vox_lattice.Server.Fixture.{begin}
use vox_lattice.Plugin.Transport.{
  AudioRequest, Request, end_request, TransportConfig, GrpcWorker, init, enqueue, try_send,
  count_samples,
}
use vox_lattice.Plugin.Transport.Room
use vox_lattice.Plugin.Transport.Room.{Requesting, counts, puts, here, next, total, limit}
use vox_lattice.Plugin.Transport.Room.Bound.{never_full}
use vox_lattice.Plugin.Transport.Requests.{request_iterator, call_metadata}
use vox_lattice.Plugin.Transport.Requests.Accepted.{Passes, request_iterator_lem, authenticated_iff}
use vox_lattice.Plugin.Transport.Responses.{run_generation}
use vox_lattice.Plugin.Transport.Responses.Trace.{Contiguous, run_generation-Contiguous}
use vox_lattice.Plugin.Transport.Run.{Turn, unavailable, ready, incompatible, first_delay, run}
use vox_lattice.Plugin.Transport.Run.Backoff.{WaitsWithin, run-WaitsWithin}
use vox_lattice.Plugin.Transport.Run.Doubling.{NotReached, run_doubles}
use vox_lattice.Plugin.Transport.Run.Generations.{Told, run-Told, Closed, run_ends}

abbrev config : TransportConfig
config = record {
  api_key = some "0123456789abcdef";
  reconnect_min_delay = 100;
  reconnect_max_delay = 2000;
  max_request_queue_samples = 8000;
  expected_model_revision = "49ab55a5";
  expected_model_sha256 = "980ec00d";
}

abbrev pcm : List ℕ
pcm = 1 ∷ 0 ∷ 2 ∷ 0 ∷ []

abbrev chunk : AudioRequest
chunk = record { start_sample = 0; pcm_s16le = pcm }

abbrev one_counted : GrpcWorker
one_counted = record (init config) { pending_samples = 2 }

abbrev one_sent : GrpcWorker
one_sent = record one_counted {
  requests = record { maxsize = 8004; items = Request.audio chunk ∷ [] };
}

sent : try_send 0 pcm (init config) ≡ some (one_sent, true)
unfolding try_send count_samples enqueue Queue.put_nowait Queue.full
sent = refl

counted : count_samples 2 (init config) ≡ some one_counted
unfolding count_samples
counted = refl

put : enqueue (Request.audio chunk) one_counted ≡ some one_sent
unfolding enqueue Queue.put_nowait Queue.full
put = refl

abbrev after : Requesting
after = record (Room.begin config) { worker = one_sent }

never_full_example :
    ((request : Request) → enqueue request one_sent ≢ none)
    × (2 ≡ total one_sent.requests.items + 0 + 0)
    × (2 ≤ limit after)
never_full_example =
    never_full config after
      (next (next here (counts chunk one_counted refl (omega arith) counted))
        (puts chunk one_sent refl put))
      refl

abbrev first : AudioRequest
first = record { start_sample = 480; pcm_s16le = pcm }

request_iterator_lem_example :
    (s : StartStream) × (messages : List ClientMessage) × (request_iterator
        "0123456789abcdef0123456789abcdef"
        (("room_name", "lobby") ∷ [])
        first
        false
        ((Request.audio (record { start_sample = 482; pcm_s16le = pcm }), false)
          ∷ (end_request true, false)
          ∷ [])
      ≡ start s ∷ messages)
    × (s.input_start_sample ≡ 480)
    × IsStart s
    × Passes exact 16000 (begin 480).stream messages
request_iterator_lem_example =
    request_iterator_lem exact 16000 (begin 480).stream "0123456789abcdef0123456789abcdef"
      (("room_name", "lobby") ∷ []) first false
      ((Request.audio (record { start_sample = 482; pcm_s16le = pcm }), false)
        ∷ (end_request true, false)
        ∷ [])
      (omega arith) (omega arith, refl, omega arith, (omega arith, refl, omega arith, tt)) refl refl

authenticated_iff_example :
    (authenticated
        (λ s. s)
        "0123456789abcdef"
        (map (λ e. (e.0, text_value e.1)) (call_metadata config))
      ≡ true)
    ↔ (◌≡◌ {A = String} "0123456789abcdef" "0123456789abcdef")
authenticated_iff_example =
    authenticated_iff (λ s. s) config "0123456789abcdef" "0123456789abcdef" refl refl

abbrev capabilities : StreamAccepted
capabilities = record {
  protocol_version = "1";
  model_name = "FastEnhancer-B";
  model_revision = "49ab55a5";
  model_sha256 = "980ec00d";
  sample_rate_hz = 16000;
  channels = 1;
  sample_format = pcm_s16le;
  hop_samples = 256;
  algorithmic_delay_samples = 256;
  cuda_device = "NVIDIA L4";
  max_audio_chunk_samples = 16000;
}

-- The second message repeats the first.
abbrev messages : List ServerMessage
messages =
    accepted capabilities
    ∷ audio (record {
      output_sequence = 0;
      output_start_sample = 480;
      pcm_s16le = pcm;
      valid_samples = 2;
    })
    ∷ audio (record {
      output_sequence = 0;
      output_start_sample = 480;
      pcm_s16le = pcm;
      valid_samples = 2;
    })
    ∷ []

run_generation-Contiguous_example :
    Contiguous 480 (run_generation config false false 480 messages).0
run_generation-Contiguous_example = run_generation-Contiguous config false false 480 messages

-- The server is away twice, then it answers, then the worker shall stop.
abbrev before : List Turn
before =
    record {
      readiness = unavailable;
      stopped = false;
      first = none;
      messages = [];
      failed = false;
      stretched = λ d. d;
    }
    ∷ record {
      readiness = incompatible "no";
      stopped = false;
      first = none;
      messages = [];
      failed = false;
      stretched = λ d. d;
    }
    ∷ record {
      readiness = ready;
      stopped = false;
      first = some first;
      messages = messages;
      failed = false;
      stretched = λ d. d;
    }
    ∷ []

abbrev last : Turn
last = record {
  readiness = ready;
  stopped = false;
  first = none;
  messages = [];
  failed = false;
  stretched = λ d. d;
}

-- A draw of 1.
plain : (d : ℕ) → (d * 8 ≤ d * 10) × (d * 10 ≤ d * 12)
plain d = (omega arith, omega arith)

run-WaitsWithin_example : WaitsWithin 100 2000 (run before (first_delay (init config))).calls
run-WaitsWithin_example =
    run-WaitsWithin config (omega arith) before (init config) refl (plain, (plain, (plain, tt)))

-- Five turns in which the server is away: 100 ms doubled to 3200 ms, cut to 2000.
abbrev away : Turn
away = record {
  readiness = unavailable;
  stopped = false;
  first = none;
  messages = [];
  failed = false;
  stretched = λ d. d;
}

five_away : NotReached (away ∷ away ∷ away ∷ away ∷ away ∷ [])
unfolding NotReached
five_away = (refl, refl, (refl, refl, (refl, refl, (refl, refl, (refl, refl, tt)))))

run_doubles_example :
    (run (away ∷ away ∷ away ∷ away ∷ away ∷ []) (first_delay (init config))).loop.delay
    ≡ min (100 * 2 ^ length (away ∷ away ∷ away ∷ away ∷ away ∷ [])) 2000
run_doubles_example =
    run_doubles (away ∷ away ∷ away ∷ away ∷ away ∷ []) (init config) five_away (omega arith)

run-Told_example : Told (first_delay (init config)) (run before (first_delay (init config)))
run-Told_example = run-Told before (first_delay (init config))

run_ends_example :
    ((run (before ++ last ∷ []) (first_delay (init config))).goes_on ≡ false)
    × Closed (run (before ++ last ∷ []) (first_delay (init config)))
run_ends_example = run_ends before [] last (first_delay (init config)) (inr (refl, refl))
