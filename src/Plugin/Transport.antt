-- ===== src/Plugin/Transport.antt =====
-- packages/livekit-plugins-fastenhancer/livekit/plugins/fastenhancer/transport.py, `GRPCWorker`: the queue
-- of requests that LiveKit's thread fills and the worker's thread empties. The channel, the call and the
-- thread are grpc's and Python's. Each function is one method, taken as a whole, or a part of
-- one; Room has the parts of all threads in any order.
mod Examples
pub mod Text
pub mod Room
pub mod Requests
pub mod Responses
pub mod Run
use vox_lattice.Base.{
  ℕ, ◌+◌, ◌-◌, ◌*◌, ◌/◌, String, Bool, true, false, not, ◌||◌, ◌&&◌, Option, none, some, List, [],
  ◌∷◌, Result, ok, raise, runtime_error, ltb, ◌==◌, str_eq, if◌then◌else◌, length,
}
use vox_lattice.Protocol.{SampleFormat, pcm_s16le, unspecified, StreamAccepted}
use vox_lattice.Server.Queue
use vox_lattice.Server.Queue.{Queue}

pub record AudioRequest : Type 0 where
  pub start_sample : ℕ
  pub pcm_s16le : List ℕ

-- `AudioRequest | EndRequest | StopRequest | ResetRequest`; `final` and `reconnect` are never read.
pub data Request : Type 0 where
  audio : AudioRequest → Request
  end_request : (flush : Bool) → Request
  stop_request reset_request : Request

-- The fields of `TransportConfig` that the worker itself reads; delays are in some unit of time that
-- divides both.
pub record TransportConfig : Type 0 where
  pub api_key : Option String
  pub reconnect_min_delay : ℕ
  pub reconnect_max_delay : ℕ
  pub max_request_queue_samples : ℕ
  pub expected_model_revision : String
  pub expected_model_sha256 : String

pub record GrpcWorker : Type 0 where
  pub config : TransportConfig
  pub requests : Queue Request
  pub pending_samples : ℕ
  pub stop : Bool
  pub reset : Bool
  pub generation : ℕ

-- `__init__`
abbrev pub init : TransportConfig → GrpcWorker
init config = record {
  config = config;
  requests = record { maxsize = config.max_request_queue_samples + 4; items = [] };
  pending_samples = 0;
  stop = false;
  reset = false;
  generation = 0;
}

-- A `put` on the queue: `none` where `put` waits and `put_nowait` raises `queue.Full`.
unfoldable pub enqueue : Request → GrpcWorker → Option GrpcWorker
unfolding Queue.put_nowait
enqueue request w = elim (Queue.put_nowait request w.requests) [
  | none ↦ none
  | some requests ↦ some (record w { requests = requests })
]

-- The lines of `try_send` under the lock: `none` where the chunk is refused.
unfoldable pub count_samples : ℕ → GrpcWorker → Option GrpcWorker
count_samples samples w =
    if w.stop || ltb w.config.max_request_queue_samples (w.pending_samples + samples)
    then none
    else some (record w { pending_samples = w.pending_samples + samples })

-- `try_send` when no other thread runs between its lock and its `put`; `none` where the caller waits in
-- `put`.
unfoldable pub try_send : ℕ → List ℕ → GrpcWorker → Option (GrpcWorker × Bool)
unfolding count_samples
try_send start_sample pcm w = elim (count_samples (length pcm / 2) w) [
  | none ↦ some (w, false)
  | some w' ↦
      let request = audio (record { start_sample = start_sample; pcm_s16le = pcm }) in
      elim (enqueue request w') [ none ↦ none | some w'' ↦ some (w'', true) ]
]

-- The loop of `_drain_requests`, and its lines under the lock.
abbrev pub empty_requests : GrpcWorker → GrpcWorker
empty_requests w = record w { requests = record w.requests { items = [] } }

abbrev pub clear_pending : GrpcWorker → GrpcWorker
clear_pending w = record w { pending_samples = 0 }

-- `_drain_requests` when no other thread runs between the two.
unfoldable pub drain_requests : GrpcWorker → GrpcWorker
drain_requests w = clear_pending (empty_requests w)

-- `none` is `queue.Full`; the call that it cancels is grpc's.
unfoldable pub force_reset : GrpcWorker → Option GrpcWorker
unfolding drain_requests
force_reset w = enqueue reset_request (drain_requests (record w { reset = true }))

-- The first lines of `_close_locked`.
unfoldable pub signal_stop : GrpcWorker → Option GrpcWorker
signal_stop w = if not w.stop then enqueue (end_request true) (record w { stop = true }) else some w

-- The lines for a worker that did not stop in time.
unfoldable pub insist : GrpcWorker → Option GrpcWorker
insist w = enqueue stop_request w

-- `close`, where the thread's `is_alive` answers `running`, `still` and `stuck` at its three calls;
-- `none` is `queue.Full`.
unfoldable pub close : Bool → Bool → Bool → GrpcWorker → Option (Result GrpcWorker)
unfolding signal_stop insist
close running still stuck w = elim (signal_stop w) [
  | none ↦ none
  | some w' ↦ if not running then some (ok w') else elim (if still then insist w' else some w') [
    | none ↦ none
    | some w'' ↦ some (if stuck then raise (runtime_error "gRPC worker did not stop") else ok w'')
  ]
]

-- `self._requests.get()`; `none` while the queue is empty and the worker waits.
unfoldable pub take_request : GrpcWorker → Option (Request × GrpcWorker)
take_request w = elim (Queue.get_nowait w.requests) [
  | none ↦ none
  | some (request, requests) ↦ some (request, record w { requests = requests })
]

-- The lines of `_request_iterator` after a chunk was sent.
unfoldable pub acknowledge : ℕ → GrpcWorker → GrpcWorker
acknowledge samples w = record w { pending_samples = w.pending_samples - samples }

-- `_next_audio_or_stop` on the requests that `get` returns: `none` while it waits for more, and the
-- requests behind the one that ends it.
unfoldable pub next_audio_or_stop : List Request → Option (Option AudioRequest × List Request)
next_audio_or_stop [] = none
next_audio_or_stop (audio request ∷ rest) = some (some request, rest)
next_audio_or_stop (reset_request ∷ rest) = next_audio_or_stop rest
next_audio_or_stop (_ ∷ rest) = some (none, rest)
