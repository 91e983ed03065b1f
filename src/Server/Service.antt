-- ===== src/Server/Service.antt =====
-- services/fastenhancer-server/src/fastenhancer_server/service.py, for one stream: what the request
-- reader does with a client's message, the enqueueing that follows, and what the handler sends.
pub mod Effects
use vox_lattice.Base.{
  ℕ, ◌+◌, ◌-◌, ◌*◌, ◌/◌, ◌%◌, String, Bool, true, false, not, ◌||◌, Option, none, some, List, [],
  ◌∷◌, ◌++◌, map, ltb, ◌==◌, if◌then◌else◌, length, Result, ok, raise, buffer_error,
}
use vox_lattice.Audio.Pcm.{Float32}
use vox_lattice.Audio.Rechunker
use vox_lattice.Audio.Rechunker.{SourceHop, PcmRechunker, hop_samples}
use vox_lattice.Protocol.{AudioChunk}
use vox_lattice.Server.Queue
use vox_lattice.Server.Metrics.{
  StatusCode, resource_exhausted, failed_precondition, invalid_argument, deadline_exceeded,
  internal, QueueLabel, input, ServerMetrics, inc, dec,
}
use vox_lattice.Server.Session.{
  ModelWork, OutputEvent, output_audio, stream_completion, rpc_failure, StreamSession, emit_nowait,
  enqueue_source, enqueue_flush, enqueue_no_flush, cancel,
}
use vox_lattice.Server.Scheduler.{
  Stream, Exit, returned, queue_full, with_session, drain_output, drop_events, notify,
  complete_empty_flush,
}

-- What the reader's `anext` gives: the bodies of a client message, the end of the messages, a
-- timeout, or any other exception, which is `broken`. `empty_message` has no body.
pub data Request : Type 0 where
  start_again empty_message closed timed_out broken : Request
  audio : AudioChunk → Request
  end_stream : (flush : Bool) → Request

-- What the reader still has to enqueue before it reads on.
pub data Todo (S : Type 0) : Type 0 where
  put_source : SourceHop S → Todo S
  -- the second half of `_finish_input`, after the partial hop
  finish_flush : Todo S
  put_no_flush : List S → Todo S

-- The outcome of a call in the reader: the next steps, or an exception that ends it.
pub data Outcome (S : Type 0) : Type 0 where
  enqueues : List (Todo S) → Outcome S
  violation : StatusCode → String → Outcome S
  internal_error : Outcome S
  finished : Outcome S

-- A message to the client after `StreamAccepted`.
pub data ServerMessage : Type 0 where
  enhanced_audio :
      (output_sequence output_start_sample : ℕ) (pcm_s16le : List ℕ) (valid_samples : ℕ)
      → ServerMessage
  stream_ended : (input_samples output_samples : ℕ) (flushed : Bool) → ServerMessage

-- What the handler does with an event: send a message and go on, send the last one, or abort.
pub data Reply : Type 0 where
  sends : ServerMessage → Reply
  ends_with : ServerMessage → Reply
  aborts : StatusCode → String → Reply

-- The work items that the end of the handler finds in the input queue, for the metrics.
unfoldable pub drop_works : {S : Type 0} → List (ModelWork S) → ServerMetrics → ServerMetrics
unfolding dec
drop_works [] m = m
drop_works (work ∷ works) m = drop_works works (elim work.source [
  | none ↦ m
  | some _ ↦ record m { input_queue_samples = dec hop_samples m.input_queue_samples }
])

module _ {S C : Type 0} where
  -- The failure that ends a reader: `_emit_failure` after `session.cancel()`.
  unfoldable pub emit_failure : StatusCode → String → Stream S C → Stream S C × Exit
  unfolding drain_output emit_nowait
  emit_failure status detail st =
      let drained = drain_output st in
      elim (emit_nowait (rpc_failure status detail) drained.session) [
        | none ↦ (drained, queue_full)
        | some session ↦ (with_session session drained, returned)
      ]

  unfoldable pub reader_fails : StatusCode → String → Stream S C → Stream S C × Exit
  unfolding emit_failure cancel
  reader_fails status detail st = emit_failure status detail (with_session (cancel st.session) st)

  -- One turn of the handler's loop; `none` while the output queue is empty and it waits.
  unfoldable pub handle_event : Stream S C → Option (Stream S C × Reply)
  unfolding Queue.get_nowait dec
  handle_event st = elim (Queue.get_nowait st.session.output_queue) [
    | none ↦ none
    | some (event, queue) ↦
        let st' = with_session (record st.session { output_queue = queue }) st in
        let m = st.metrics in
        elim event [
          | output_audio start_sample pcm_s16le valid_samples ↦
              let n = st.session.output_sequence in
              some (
                record st' {
                  session = record st'.session { output_sequence = n + 1 };
                  metrics = record m {
                    output_queue_samples = dec valid_samples m.output_queue_samples;
                  };
                },
                sends (enhanced_audio n start_sample pcm_s16le valid_samples),
              )
          | stream_completion input_samples output_samples flushed ↦ some (
            record st' { metrics = record m { streams_completed = m.streams_completed + 1 } },
            ends_with (stream_ended input_samples output_samples flushed),
          )
          | rpc_failure status detail ↦ some (
            record st' { metrics = record m { protocol_errors = status ∷ m.protocol_errors } },
            aborts status detail,
          )
        ]
  ]

  -- The `finally` of `Enhance`, for a registered session; the registry is a module of its own.
  unfoldable pub finalize : Stream S C → Stream S C
  unfolding cancel drop_works drain_output dec
  finalize st =
      let session = cancel st.session in
      let queue = session.input_queue in
      let emptied = drain_output (record st {
        session = record session { input_queue = record queue { items = [] } };
        metrics = drop_works queue.items st.metrics;
      }) in
      record emptied {
        metrics = record emptied.metrics { active_streams = dec 1 emptied.metrics.active_streams };
      }

  -- The checks of `_accept_audio`, in their order, and the exception of the first that fails.
  unfoldable pub chunk_violation : ℕ → AudioChunk → StreamSession S C → Option (StatusCode × String)
  chunk_violation max_audio_chunk_samples chunk session =
      let size = length chunk.pcm_s16le in
      if size == 0 || not (size % 2 == 0)
      then some (invalid_argument, "audio payload must have positive even length")
      else if ltb max_audio_chunk_samples (size / 2)
      then some (resource_exhausted, "audio chunk too large")
      else if not (chunk.sequence == session.expected_sequence)
      then some (invalid_argument, "audio sequence is not contiguous")
      else if not (chunk.input_start_sample == session.expected_input_sample)
      then some (invalid_argument, "audio offset is not contiguous")
      else none

module _ (f : Float32) {C : Type 0} where
  open f use {Value}

  -- The counters of `_accept_audio`, set before the chunk is rechunked.
  abbrev pub counted : ℕ → Stream Value C → Stream Value C
  counted sample_count st = record st {
    session = record st.session {
      expected_sequence = st.session.expected_sequence + 1;
      expected_input_sample = st.session.expected_input_sample + sample_count;
      input_samples = st.session.input_samples + sample_count;
    };
    metrics = record st.metrics { input_samples = st.metrics.input_samples + sample_count };
  }

  -- The exceptions of `append`: a full buffer is the client's fault.
  unfoldable pub rechunked :
      Stream Value C
      → Result (List (SourceHop Value) × PcmRechunker Value)
      → Stream Value C × Outcome Value
  rechunked st (ok (hops, rechunker)) = (
    with_session (record st.session { rechunker = rechunker }) st,
    enqueues (map put_source hops),
  )
  rechunked st (raise (buffer_error detail)) = (
    record st { metrics = record st.metrics { backpressure = input ∷ st.metrics.backpressure } },
    violation resource_exhausted detail,
  )
  rechunked st (raise _) = (st, internal_error)

  -- `_accept_audio` up to its loop over the hops.
  unfoldable pub accept_audio : ℕ → AudioChunk → Stream Value C → Stream Value C × Outcome Value
  accept_audio max_audio_chunk_samples chunk st =
      elim (chunk_violation max_audio_chunk_samples chunk st.session) [
        | some (status, detail) ↦ (st, violation status detail)
        | none ↦
            rechunked (counted (length chunk.pcm_s16le / 2) st)
              (Rechunker.append f chunk.pcm_s16le st.session.rechunker)
      ]

  -- What follows the flush of the rechunker in `_finish_input`.
  unfoldable pub flushed :
      Stream Value C
      → Result (Option (SourceHop Value) × PcmRechunker Value)
      → Stream Value C × Outcome Value
  flushed st (ok (none, rechunker)) =
      (with_session (record st.session { rechunker = rechunker }) st, enqueues (finish_flush ∷ []))
  flushed st (ok (some partial, rechunker)) = (
    with_session (record st.session { rechunker = rechunker }) st,
    enqueues (put_source partial ∷ finish_flush ∷ []),
  )
  flushed st (raise _) = (st, internal_error)

  -- `_finish_input` up to its first `await`. `garbage` is what `torch.empty` finds in memory.
  unfoldable pub finish_input : Bool → List Value → Stream Value C → Stream Value C × Outcome Value
  finish_input flush garbage st =
      if not flush
      then (st, enqueues (put_no_flush garbage ∷ []))
      else flushed st (Rechunker.flush_partial f st.session.rechunker)

  -- One step of the enqueueing; `none` while the input queue is full and the reader waits.
  unfoldable pub advance : Todo Value → Stream Value C → Option (Stream Value C × Exit)
  unfolding enqueue_source enqueue_flush enqueue_no_flush inc
  advance (put_source hop) st = elim (enqueue_source hop st.session) [
    | none ↦ none
    | some session ↦
        let m = st.metrics in
        some (
          notify (record st {
            session = session;
            metrics = record m { input_queue_samples = inc hop_samples m.input_queue_samples };
          }))
  ]
  advance finish_flush st =
      if st.session.input_samples == 0
      then some (complete_empty_flush st)
      else elim (enqueue_flush f.zero st.session) [
        | none ↦ none
        | some session ↦ some (notify (with_session session st))
      ]
  advance (put_no_flush garbage) st = elim (enqueue_no_flush garbage st.session) [
    | none ↦ none
    | some session ↦ some (notify (with_session session st))
  ]

  -- One turn of the loop of `_read_requests`: the new `saw_end` beside the outcome.
  unfoldable pub read_request :
      ℕ → List Value → Bool → Request → Stream Value C → Bool × Stream Value C × Outcome Value
  read_request max_chunk garbage saw_end closed st =
      if not saw_end
      then (saw_end, st, violation failed_precondition "EndStream is required")
      else (saw_end, st, finished)
  read_request max_chunk garbage saw_end timed_out st =
      (saw_end, st, violation deadline_exceeded "stream idle timeout")
  read_request max_chunk garbage saw_end broken st = (saw_end, st, internal_error)
  read_request max_chunk garbage true _ st =
      (true, st, violation failed_precondition "message received after EndStream")
  read_request max_chunk garbage false start_again st =
      (false, st, violation failed_precondition "duplicate StartStream")
  read_request max_chunk garbage false (audio chunk) st =
      let (st', outcome) = accept_audio max_chunk chunk st in (false, st', outcome)
  read_request max_chunk garbage false empty_message st =
      (false, st, violation invalid_argument "empty client message")
  read_request max_chunk garbage false (end_stream flush) st =
      let (st', outcome) = finish_input flush garbage st in (true, st', outcome)
