-- ===== src/Server/Metrics.antt =====
-- services/fastenhancer-server/src/fastenhancer_server/metrics.py, the counters and gauges that the
-- modelled code updates. The histograms only record times and batch sizes, and are left out.
use vox_lattice.Base.{ℕ, ◌+◌, List, []}

-- `grpc.StatusCode`, the codes that the service uses.
pub data StatusCode : Type 0 where
  already_exists resource_exhausted failed_precondition invalid_argument : StatusCode
  deadline_exceeded internal unauthenticated : StatusCode

-- The label of `backpressure`.
pub data QueueLabel : Type 0 where
  input output : QueueLabel

-- A gauge's value is what was added less what was subtracted; both totals are kept, so that a value
-- below zero would show.
pub record Gauge : Type 0 where
  pub added : ℕ
  pub subtracted : ℕ

unfoldable pub inc : ℕ → Gauge → Gauge
inc n g = record g { added = g.added + n }

unfoldable pub dec : ℕ → Gauge → Gauge
dec n g = record g { subtracted = g.subtracted + n }

-- A counter with a label is the list of the labels that it was increased with, the last first.
pub record ServerMetrics : Type 0 where
  pub active_streams : Gauge
  pub streams_opened : ℕ
  pub streams_completed : ℕ
  pub stream_rejections : List StatusCode
  pub input_samples : ℕ
  pub output_samples : ℕ
  pub input_queue_samples : Gauge
  pub output_queue_samples : Gauge
  pub protocol_errors : List StatusCode
  pub backpressure : List QueueLabel
  pub auth_failures : ℕ

abbrev pub zero_gauge : Gauge
zero_gauge = record { added = 0; subtracted = 0 }

abbrev pub init : ServerMetrics
init = record {
  active_streams = zero_gauge;
  streams_opened = 0;
  streams_completed = 0;
  stream_rejections = [];
  input_samples = 0;
  output_samples = 0;
  input_queue_samples = zero_gauge;
  output_queue_samples = zero_gauge;
  protocol_errors = [];
  backpressure = [];
  auth_failures = 0;
}
