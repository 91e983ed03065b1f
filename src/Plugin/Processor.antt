-- ===== src/Plugin/Processor.antt =====
-- packages/livekit-plugins-fastenhancer/livekit/plugins/fastenhancer/processor.py, `RemoteFastEnhancer`:
-- each function is what one `with self._condition` block does, so that the gRPC thread may run
-- between any two of them. The worker is transport.py's; what it answers is an argument.
pub mod Effects
pub mod Kept
pub mod Process
pub mod Safety
use vox_lattice.Base.{
  ℕ, ◌+◌, ◌-◌, ◌*◌, ◌/◌, min, Bool, true, false, not, ◌||◌, Option, none, some, List, [], Result,
  ok, raise, value_error, runtime_error, ◌>>=◌, ltb, leb, ◌==◌, if◌then◌else◌, length, drop,
}
use vox_lattice.Timeline.ContiguousPcm
use vox_lattice.Timeline.ContiguousPcm.{ContiguousPcm}
use vox_lattice.Timeline.EnhancedSegments
use vox_lattice.Timeline.EnhancedSegments.{Segment}

-- metrics.py, `PluginMetrics`
pub record PluginMetrics : Type 0 where
  pub frames_in : ℕ
  pub frames_out : ℕ
  pub samples_in : ℕ
  pub samples_out : ℕ
  pub enhanced_samples : ℕ
  pub raw_fallback_samples : ℕ
  pub late_response_samples : ℕ
  pub protocol_mismatches : ℕ
  pub reconnects : ℕ
  pub queue_overflows : ℕ

-- transport.py, `TransportState`; `shut` is its CLOSED.
pub data TransportState : Type 0 where
  disconnected connecting active backoff shut : TransportState

-- `response_wait_samples` and `max_buffer_samples` are computed once, from the configuration.
pub record Processor : Type 0 where
  pub response_wait_samples : ℕ
  pub max_buffer_samples : ℕ
  pub enabled : Bool
  pub closed : Bool
  pub input_cursor : ℕ
  pub output_cursor : ℕ
  pub raw : ContiguousPcm
  pub enhanced : List Segment
  pub remote_generation : ℕ
  pub transport_state : TransportState
  pub metrics : PluginMetrics

pub record AudioFrame : Type 0 where
  pub data_bytes : List ℕ
  pub sample_rate : ℕ
  pub num_channels : ℕ
  pub samples_per_channel : ℕ

abbrev pub sample_rate_hz : ℕ
sample_rate_hz = 16000

abbrev pub algorithmic_delay_samples : ℕ
algorithmic_delay_samples = 256

abbrev pub init_metrics : PluginMetrics
init_metrics = record {
  frames_in = 0;
  frames_out = 0;
  samples_in = 0;
  samples_out = 0;
  enhanced_samples = 0;
  raw_fallback_samples = 0;
  late_response_samples = 0;
  protocol_mismatches = 0;
  reconnects = 0;
  queue_overflows = 0;
}

-- `__init__`
abbrev pub init : ℕ → ℕ → Processor
init response_wait_samples max_buffer_ms = record {
  response_wait_samples = response_wait_samples;
  max_buffer_samples = max_buffer_ms * sample_rate_hz / 1000;
  enabled = true;
  closed = false;
  input_cursor = 0;
  output_cursor = 0;
  raw = ContiguousPcm.init 0;
  enhanced = [];
  remote_generation = 0;
  transport_state = disconnected;
  metrics = init_metrics;
}

-- The setter of `enabled`, and whether the worker is reset after it.
unfoldable pub set_enabled : Bool → Processor → Processor × Bool
set_enabled value p =
    if p.closed
    then (p, false)
    else if (if value then p.enabled else not p.enabled)
    then (p, false)
    else (
      record p {
        enabled = value;
        enhanced = [];
        raw = ContiguousPcm.clear_at p.input_cursor p.raw;
        output_cursor = p.input_cursor;
      },
      true,
    )

unfoldable pub generation_changed : ℕ → TransportState → Processor → Processor
generation_changed generation state p =
    if ltb p.remote_generation generation
    then record p {
      remote_generation = generation;
      enhanced = [];
      transport_state = state;
      metrics =
          if not (p.remote_generation == 0)
          then record p.metrics { reconnects = p.metrics.reconnects + 1 }
          else p.metrics;
    }
    else record p { transport_state = state }

unfoldable pub protocol_error : ℕ → Processor → Processor
protocol_error generation p =
    if leb p.remote_generation generation
    then record p {
      metrics = record p.metrics { protocol_mismatches = p.metrics.protocol_mismatches + 1 };
      enhanced = [];
    }
    else p

abbrev pub late : ℕ → PluginMetrics → PluginMetrics
late samples m = record m { late_response_samples = m.late_response_samples + samples }

abbrev pub mismatch : PluginMetrics → PluginMetrics
mismatch m = record m { protocol_mismatches = m.protocol_mismatches + 1 }

-- The end of `_receive_audio`, once what is late is cut off; the flag tells of the reset.
unfoldable pub keep_audio : ℕ → List ℕ → Processor → Processor × Bool
keep_audio start_sample pcm_s16le p =
    if ltb p.input_cursor (start_sample + length pcm_s16le / 2)
    then (record p { metrics = mismatch p.metrics }, true)
    else elim (EnhancedSegments.insert start_sample pcm_s16le p.enhanced) [
      | ok enhanced ↦ (record p { enhanced = enhanced }, false)
      | raise _ ↦ (record p { metrics = mismatch p.metrics; enhanced = [] }, true)
    ]

unfoldable pub receive_audio : ℕ → ℕ → List ℕ → Processor → Processor × Bool
receive_audio generation start_sample pcm_s16le p =
    let samples = length pcm_s16le / 2 in
    if not (generation == p.remote_generation) || leb (start_sample + samples) p.output_cursor
    then (record p { metrics = late samples p.metrics }, false)
    else if ltb start_sample p.output_cursor
    then (let trim = p.output_cursor - start_sample in
        keep_audio p.output_cursor (drop (trim * 2) pcm_s16le)
          (record p { metrics = late trim p.metrics }))
    else keep_audio start_sample pcm_s16le p

-- What the first block of `_process` leads to: the frame itself, or the raw audio to send.
pub data Admitted : Type 0 where
  passes_through : Admitted
  to_send : (start_sample : ℕ) → Admitted

-- `_process` up to `try_send`
unfoldable pub admit : AudioFrame → Processor → Result (Processor × Admitted)
admit frame p =
    let pcm = frame.data_bytes in
    let sample_count = frame.samples_per_channel in
    if not (frame.sample_rate == sample_rate_hz) || not (frame.num_channels == 1)
    then raise (value_error "RemoteFastEnhancer accepts only 16000 Hz mono AudioFrame input")
    else if not (length pcm == sample_count * 2)
    then raise (value_error "AudioFrame PCM length does not match samples_per_channel")
    else if ltb p.max_buffer_samples sample_count
    then raise (value_error "AudioFrame exceeds configured bounded timeline capacity")
    else if p.closed
    then raise (runtime_error "RemoteFastEnhancer is closed")
    else (let m = record p.metrics {
      frames_in = p.metrics.frames_in + 1;
      samples_in = p.metrics.samples_in + sample_count;
    } in
        let input_cursor = p.input_cursor + sample_count in
        if not p.enabled
        then ok (
          record p {
            input_cursor = input_cursor;
            output_cursor = input_cursor;
            metrics = record m {
              frames_out = m.frames_out + 1;
              samples_out = m.samples_out + sample_count;
              raw_fallback_samples = m.raw_fallback_samples + sample_count;
            };
          },
          passes_through,
        )
        else do
          raw ← ContiguousPcm.append p.input_cursor pcm p.raw
          ok (
            record p { input_cursor = input_cursor; raw = raw; metrics = m },
            to_send p.input_cursor,
          ))

-- The block after a `try_send` that failed.
unfoldable pub overflowed : Processor → Processor
overflowed p = record p {
  metrics = record p.metrics { queue_overflows = p.metrics.queue_overflows + 1 };
  enhanced = [];
}

-- The samples that the last block of `_process` puts out.
abbrev pub due : ℕ → Processor → ℕ
due sample_count p =
    min sample_count
      (p.input_cursor - algorithmic_delay_samples - p.response_wait_samples - p.output_cursor)

abbrev pub moved_on : ℕ → PluginMetrics → Processor → Processor
moved_on output_samples m p =
    let output_cursor = p.output_cursor + output_samples in
    record p {
      output_cursor = output_cursor;
      raw = ContiguousPcm.discard_before output_cursor p.raw;
      enhanced = EnhancedSegments.discard_before output_cursor p.enhanced;
      metrics = record m {
        frames_out = m.frames_out + 1;
        samples_out = m.samples_out + output_samples;
      };
    }

-- The last block of `_process`: the PCM of the frame that it returns.
unfoldable pub emit : ℕ → Processor → Result (Processor × List ℕ)
emit sample_count p =
    let output_samples = due sample_count p in
    let enhanced =
      if output_samples == 0
      then some []
      else EnhancedSegments.read p.output_cursor output_samples p.enhanced in
    elim enhanced [
      | none ↦ do
        output ← ContiguousPcm.read p.output_cursor output_samples p.raw
        ok (
          moved_on output_samples
              (record p.metrics {
                raw_fallback_samples = p.metrics.raw_fallback_samples + output_samples;
              })
              p,
          output,
        )
      | some output ↦ ok (
        moved_on output_samples
            (record p.metrics { enhanced_samples = p.metrics.enhanced_samples + output_samples }) p,
        output,
      )
    ]

-- `_process`, when nothing runs between its blocks; `accepted` is what `try_send` returns.
unfoldable pub process : Bool → AudioFrame → Processor → Result (Processor × List ℕ)
process accepted frame p = do
  (admitted, what) ← admit frame p
  elim what [
    | passes_through ↦ ok (admitted, frame.data_bytes)
    | to_send start_sample ↦
        emit frame.samples_per_channel (if accepted then admitted else overflowed admitted)
  ]

-- The two locked blocks of `_close`; the worker's close stands between them.
unfoldable pub begin_close : Processor → Processor
begin_close p = if p.closed then p else record p { closed = true }

unfoldable pub end_close : Processor → Processor
end_close p = record p { enhanced = []; raw = ContiguousPcm.clear_at p.input_cursor p.raw }
