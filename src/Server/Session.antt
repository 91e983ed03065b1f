-- ===== src/Server/Session.antt =====
-- services/fastenhancer-server/src/fastenhancer_server/session.py. Times (`enqueued_at`,
-- `pending_enqueued_at`, `last_activity`) feed only histograms and are left out.
use vox_lattice.Base.{
  ℕ, ◌*◌, max, String, Bool, true, false, Option, none, some, List, [], Result, ok, ◌>>=◌,
  replicate,
}
use vox_lattice.Audio.Rechunker
use vox_lattice.Audio.Rechunker.{SourceHop, PcmRechunker, hop_samples}
use vox_lattice.Server.Queue
use vox_lattice.Server.Queue.{Queue}
use vox_lattice.Server.Metrics.{StatusCode}

pub record ModelWork (S : Type 0) : Type 0 where
  pub samples : List S
  pub source : Option (SourceHop S)
  pub terminal_flush : Bool
  pub terminal_no_flush : Bool

-- `OutputAudio | StreamCompletion | RPCFailure`
pub data OutputEvent : Type 0 where
  output_audio : (start_sample : ℕ) (pcm_s16le : List ℕ) (valid_samples : ℕ) → OutputEvent
  stream_completion : (input_samples output_samples : ℕ) (flushed : Bool) → OutputEvent
  rpc_failure : (status : StatusCode) (detail : String) → OutputEvent

-- `S` is a sample, `C` the model's caches of a stream. `object_id` is the identity of the object,
-- by which the ready queue and the registry refer to it.
pub record StreamSession (S C : Type 0) : Type 0 where
  pub object_id : ℕ
  pub stream_id : String
  pub input_start_sample : ℕ
  pub expected_input_sample : ℕ
  pub expected_sequence : ℕ
  pub input_samples : ℕ
  pub output_samples : ℕ
  pub output_sequence : ℕ
  pub caches : C
  pub rechunker : PcmRechunker S
  pub input_queue : Queue (ModelWork S)
  pub output_queue : Queue OutputEvent
  pub pending_source : Option (SourceHop S)
  pub scheduled : Bool
  pub ended : Bool
  pub cancelled : Bool

abbrev pub source_work : {S : Type 0} → SourceHop S → ModelWork S
source_work source = record {
  samples = source.samples;
  source = some source;
  terminal_flush = false;
  terminal_no_flush = false;
}

-- `zero` is the sample of `torch.zeros`.
abbrev pub flush_work : {S : Type 0} → S → ModelWork S
flush_work zero = record {
  samples = replicate hop_samples zero;
  source = none;
  terminal_flush = true;
  terminal_no_flush = false;
}

-- The samples of `torch.empty` are any; the scheduler never reads them.
abbrev pub no_flush_work : {S : Type 0} → List S → ModelWork S
no_flush_work samples = record {
  samples = samples;
  source = none;
  terminal_flush = false;
  terminal_no_flush = true;
}

module _ {S C : Type 0} where
  -- `__init__`
  unfoldable pub init : ℕ → String → ℕ → C → ℕ → ℕ → Result (StreamSession S C)
  unfolding Rechunker.init
  init object_id stream_id input_start_sample caches input_queue_hops output_queue_hops = do
    rechunker ← Rechunker.init input_start_sample (max hop_samples (input_queue_hops * hop_samples))
    ok (record {
      object_id = object_id;
      stream_id = stream_id;
      input_start_sample = input_start_sample;
      expected_input_sample = input_start_sample;
      expected_sequence = 0;
      input_samples = 0;
      output_samples = 0;
      output_sequence = 0;
      caches = caches;
      rechunker = rechunker;
      input_queue = record { maxsize = input_queue_hops; items = [] };
      output_queue = record { maxsize = output_queue_hops; items = [] };
      pending_source = none;
      scheduled = false;
      ended = false;
      cancelled = false;
    })

  -- `await self.input_queue.put(work)`: `none` while the queue is full and the caller waits.
  abbrev enqueue : ModelWork S → StreamSession S C → Option (StreamSession S C)
  enqueue work s = elim (Queue.put_nowait work s.input_queue) [
    | none ↦ none
    | some queue ↦ some (record s { input_queue = queue })
  ]

  unfoldable pub enqueue_source : SourceHop S → StreamSession S C → Option (StreamSession S C)
  unfolding Queue.put_nowait
  enqueue_source source s = enqueue (source_work source) s

  unfoldable pub enqueue_flush : S → StreamSession S C → Option (StreamSession S C)
  unfolding Queue.put_nowait
  enqueue_flush zero s = enqueue (flush_work zero) s

  unfoldable pub enqueue_no_flush : List S → StreamSession S C → Option (StreamSession S C)
  unfolding Queue.put_nowait
  enqueue_no_flush samples s = enqueue (no_flush_work samples) s

  -- `none` is `QueueFull`.
  unfoldable pub emit_nowait : OutputEvent → StreamSession S C → Option (StreamSession S C)
  unfolding Queue.put_nowait
  emit_nowait event s = elim (Queue.put_nowait event s.output_queue) [
    | none ↦ none
    | some queue ↦ some (record s { output_queue = queue })
  ]

  unfoldable pub cancel : StreamSession S C → StreamSession S C
  cancel s = record s { cancelled = true }
