-- ===== src/Server/Scheduler.antt =====
-- services/fastenhancer-server/src/fastenhancer_server/scheduler.py, for one stream: what the loop of
-- `_run` does to a session before and after the inference, and the helpers that it calls. The tasks
-- of the event loop share the metrics and the queue of sessions that are ready; both stand beside
-- the session here.
pub mod Effects
pub mod Batch
use vox_lattice.Base.{
  ℕ, ◌+◌, ◌*◌, String, Bool, true, false, not, ◌||◌, Option, none, some, List, [], ◌∷◌,
  if◌then◌else◌, take,
}
use vox_lattice.Audio.Rechunker.{SourceHop, hop_samples}
use vox_lattice.Server.Queue
use vox_lattice.Server.Queue.{Queue}
use vox_lattice.Server.Metrics.{
  StatusCode, resource_exhausted, internal, QueueLabel, output, ServerMetrics, inc, dec,
}
use vox_lattice.Server.Session.{
  ModelWork, OutputEvent, output_audio, stream_completion, rpc_failure, StreamSession, emit_nowait,
  cancel,
}

pub record Stream (S C : Type 0) : Type 0 where
  pub session : StreamSession S C
  pub metrics : ServerMetrics
  pub ready : Queue ℕ
  pub closing : Bool

-- How a call ends: normally, or with `asyncio.QueueFull` going out of it.
pub data Exit : Type 0 where
  returned queue_full : Exit

-- The loop that empties an output queue, for the metrics.
unfoldable pub drop_events : List OutputEvent → ServerMetrics → ServerMetrics
unfolding dec
drop_events [] m = m
drop_events (output_audio _ _ valid_samples ∷ events) m =
    drop_events events
      (record m { output_queue_samples = dec valid_samples m.output_queue_samples })
drop_events (_ ∷ events) m = drop_events events m

abbrev pub full_detail : String
full_detail = "per-stream output queue is full"

module _ {S C : Type 0} where
  abbrev pub with_session : StreamSession S C → Stream S C → Stream S C
  with_session session st = record st { session = session }

  unfoldable pub notify : Stream S C → Stream S C × Exit
  unfolding Queue.put_nowait Queue.empty
  notify st =
      if st.closing
        || (st.session.cancelled || (st.session.scheduled || Queue.empty st.session.input_queue))
      then (st, returned)
      else (let scheduled = with_session (record st.session { scheduled = true }) st in
          elim (Queue.put_nowait st.session.object_id st.ready) [
            | none ↦ (scheduled, queue_full)
            | some ready ↦ (record scheduled { ready = ready }, returned)
          ])

  -- `while not session.output_queue.empty()`
  unfoldable pub drain_output : Stream S C → Stream S C
  unfolding drop_events
  drain_output st =
      let queue = st.session.output_queue in
      record st {
        session = record st.session { output_queue = record queue { items = [] } };
        metrics = drop_events queue.items st.metrics;
      }

  -- `_fail`
  unfoldable pub fail : StatusCode → String → Stream S C → Stream S C × Exit
  unfolding drain_output cancel emit_nowait
  fail status detail st =
      let drained = drain_output (with_session (cancel st.session) st) in
      elim (emit_nowait (rpc_failure status detail) drained.session) [
        | none ↦ (drained, queue_full)
        | some session ↦ (with_session session drained, returned)
      ]

  -- `_complete`
  unfoldable pub complete : Bool → Stream S C → Stream S C × Exit
  unfolding fail emit_nowait
  complete flushed st =
      if st.session.ended
      then (st, returned)
      else (let ended = record st.session { ended = true } in
          elim (emit_nowait (stream_completion ended.input_samples ended.output_samples flushed)
            ended) [
              | none ↦ fail resource_exhausted full_detail (with_session ended st)
              | some session ↦ (with_session session st, returned)
            ])

  unfoldable pub complete_without_flush : Stream S C → Stream S C × Exit
  complete_without_flush st =
      complete false (with_session (record st.session { pending_source = none }) st)

  unfoldable pub complete_empty_flush : Stream S C → Stream S C × Exit
  complete_empty_flush st = complete true st

  -- The body of the loop over `sessions`: the work that joins the batch, if any.
  unfoldable pub collect : Stream S C → Stream S C × Option (ModelWork S) × Exit
  unfolding Queue.get_nowait dec
  collect st =
      let st' = with_session (record st.session { scheduled = false }) st in
      if st.session.cancelled || st.session.ended
      then (st', none, returned)
      else elim (Queue.get_nowait st.session.input_queue) [
        | none ↦ (st', none, returned)
        | some (work, queue) ↦
            let taken = with_session (record st'.session { input_queue = queue }) st' in
            if work.terminal_no_flush
            then (let (done, exit) = complete_without_flush taken in (done, none, exit))
            else elim work.source [
              | none ↦ (taken, some work, returned)
              | some _ ↦ (
                record taken {
                  metrics = record taken.metrics {
                    input_queue_samples = dec hop_samples taken.metrics.input_queue_samples;
                  };
                },
                some work,
                returned,
              )
            ]
      ]

  -- The output of the hop before, once its successor has been through the model: the session, and
  -- whether the loop goes on with it.
  unfoldable pub emit_previous :
      List ℕ → Option (SourceHop S) → Stream S C → Stream S C × Bool × Exit
  unfolding inc
  emit_previous pcm none st = (st, true, returned)
  emit_previous pcm (some previous) st =
      let output_pcm = take (previous.valid_samples * 2) pcm in
      elim (emit_nowait (output_audio previous.start_sample output_pcm previous.valid_samples)
        st.session) [
          | none ↦
              let m = record st.metrics { backpressure = output ∷ st.metrics.backpressure } in
              let (failed, exit) =
                fail resource_exhausted full_detail (record st { metrics = m }) in
              (failed, false, exit)
          | some session ↦ (
            record st {
              session = record session {
                output_samples = session.output_samples + previous.valid_samples;
              };
              metrics = record st.metrics {
                output_queue_samples = inc previous.valid_samples st.metrics.output_queue_samples;
                output_samples = st.metrics.output_samples + previous.valid_samples;
              };
            },
            true,
            returned,
          )
        ]

  -- The body of the loop over `active` after a successful inference, with the stream's output and
  -- new caches.
  unfoldable pub apply_result : ModelWork S → List ℕ → C → Stream S C → Stream S C × Exit
  apply_result work pcm updated st =
      if st.session.cancelled || st.session.ended
      then (st, returned)
      else (let previous = st.session.pending_source in
          let next = if work.terminal_flush then none else work.source in
          let (emitted, goes_on, exit) =
            emit_previous pcm previous
              (with_session (record st.session { caches = updated; pending_source = next }) st) in
          if not goes_on
          then (emitted, exit)
          else if work.terminal_flush
          then complete true emitted
          else if not (Queue.empty emitted.session.input_queue)
          then notify emitted
          else (emitted, returned))
