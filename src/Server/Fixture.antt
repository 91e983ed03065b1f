-- ===== src/Server/Fixture.antt =====
-- A run of a stream for the tests: two samples come in from a sample on, and a flush.
use vox_lattice.Base.{ℕ, ◌≡◌, refl, true, false, ok, none, List, [], ◌∷◌, ◌++◌, replicate}
use vox_lattice.Base.{String, str_eq, eq_iff, Bool-cases, inl, inr, arith}
use vox_lattice.Audio.Int16.{ℤ, frombytes, of_bytes}
use vox_lattice.Audio.Pcm.{pcm16le_to_float32}
use vox_lattice.Audio.Examples.{exact}
use vox_lattice.Audio.Rechunker
use vox_lattice.Audio.Rechunker.{
  hop_samples, append, flush_partial, take_samples, take_loop, drain_full_hops,
}
use vox_lattice.Server.Queue.{Queue, put_nowait, get_nowait, empty, full}
use vox_lattice.Server.Metrics
use vox_lattice.Server.Metrics.{dec, inc, internal}
use vox_lattice.Server.Session.{
  StreamSession, init, emit_nowait, cancel, enqueue_source, enqueue_flush,
}
use vox_lattice.Server.Scheduler.{
  notify, drop_events, drain_output, complete, complete_empty_flush, collect, emit_previous,
  apply_result,
}
use vox_lattice.Server.Service.{
  ServerMessage, enhanced_audio, audio, end_stream, handle_event, finalize, chunk_violation,
  rechunked, accept_audio, flushed, finish_input, advance, read_request, drop_works,
}
use vox_lattice.Server.System.{
  System, Reach, here, start, after_outcome, after_advance, after_reply,
}
use vox_lattice.Server.System.Promises.{}
use vox_lattice.Server.System.Run.{
  Turn, reader, enqueuer, scheduler, inference, handler, turn, turns, turns-Reach,
}

-- Texts are compared by their bytes.
pub string_discrete : Discrete String
string_discrete a b = elim (Bool-cases (str_eq a b)) [
  | inl same ↦ yes ((eq_iff a b).0 same)
  | inr differs ↦ no (λ e. ground (arith, differs, eq_iff a b, e))
]

abbrev pub session : ℕ → StreamSession ℤ ℕ
session base = record {
  object_id = 1;
  stream_id = "call-1";
  input_start_sample = base;
  expected_input_sample = base;
  expected_sequence = 0;
  input_samples = 0;
  output_samples = 0;
  output_sequence = 0;
  caches = 0;
  rechunker = record {
    parts = [];
    pending_samples = 0;
    next_sample = base;
    max_pending_samples = 1024;
  };
  input_queue = record { maxsize = 4; items = [] };
  output_queue = record { maxsize = 4; items = [] };
  pending_source = none;
  scheduled = false;
  ended = false;
  cancelled = false;
}

pub made : (base : ℕ) → init 1 "call-1" base 0 4 4 ≡ ok (session base)
unfolding init Rechunker.init
made base = refl

abbrev pub ready : Queue ℕ
ready = record { maxsize = 8; items = [] }

abbrev pub begin : ℕ → System ℤ ℕ
begin base = start (session base) Metrics.init ready

abbrev pub half_way : ℕ → List (Turn ℕ)
half_way base =
    reader
      (audio (record { sequence = 0; input_start_sample = base; pcm_s16le = 1 ∷ 0 ∷ 2 ∷ 0 ∷ [] }))
    ∷ reader (end_stream true)
    ∷ enqueuer
    ∷ enqueuer
    ∷ scheduler
    ∷ inference (replicate 512 7) 1
    ∷ scheduler
    ∷ []

abbrev pub to_the_end : ℕ → List (Turn ℕ)
to_the_end base = half_way base ++ inference (replicate 512 9) 2 ∷ handler ∷ handler ∷ []

pub reach :
    (base : ℕ) (ts : List (Turn ℕ))
    → Reach exact 4000 (begin base) (turns exact 4000 ts (begin base))
reach base ts = turns-Reach exact 4000 ts (begin base) (begin base) here

abbrev pub audio_sent : ℕ → List ServerMessage
audio_sent base = enhanced_audio 0 base (9 ∷ 9 ∷ 9 ∷ 9 ∷ []) 2 ∷ []

-- What the run unfolds.
unfoldable pub program : Unit {0}
unfolding turns turn read_request accept_audio chunk_violation rechunked append pcm16le_to_float32
    frombytes of_bytes drain_full_hops take_samples take_loop flush_partial finish_input flushed
    advance enqueue_source enqueue_flush put_nowait full get_nowait empty notify collect
    apply_result emit_previous emit_nowait complete handle_event finalize after_outcome
    after_advance after_reply drain_output drop_events drop_works cancel inc dec
    complete_empty_flush
program = tt
