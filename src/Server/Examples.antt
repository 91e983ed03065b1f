-- ===== src/Server/Examples.antt =====
-- Tests of a stream: two samples come in from sample 100 on, and a flush.
use mathlib.Core.List.{lookup}
use native.Mathlib.Decide.{ℕ_discrete}
use vox_lattice.Base.{
  arith, some, take, ℕ, ◌+◌, ◌*◌, ◌≤◌, ◌≡◌, refl, true, false, [], ◌∷◌, ◌++◌, length,
}
use vox_lattice.Audio.Examples.{exact}
use vox_lattice.Audio.Rechunker.{}
use vox_lattice.Server.Metrics
use vox_lattice.Server.Metrics.{dec, inc, internal}
use vox_lattice.Server.Session.{}
use vox_lattice.Server.Scheduler.{returned, fail}
use vox_lattice.Server.Scheduler.Effects.{failed, fail_lem}
use vox_lattice.Base.{none, replicate, List}
use vox_lattice.Audio.Int16.{ℤ}
use vox_lattice.Server.Queue.{put_nowait, full, empty}
use vox_lattice.Server.Metrics.{inc}
use vox_lattice.Server.Session.{StreamSession, ModelWork, source_work, emit_nowait}
use vox_lattice.Server.Scheduler.{emit_previous, apply_result}
use vox_lattice.Server.Scheduler.Batch.{BatchScheduler, done, gather, stream_of, apply_all}
use vox_lattice.Server.Scheduler.Batch.Streams.{apply_all-Alike, arrived, gather_lem}
use vox_lattice.Server.Registry
use vox_lattice.Server.Registry.{StreamRegistry}
use vox_lattice.Server.Registry.Refines
use vox_lattice.Server.Registry.Refines.{Operation, adds, removes}
use vox_lattice.Server.Metrics.{already_exists, resource_exhausted}
use vox_lattice.Server.Service.{stream_ended}
use vox_lattice.Server.System.{}
use vox_lattice.Server.System.Flow.{Sent}
use vox_lattice.Server.System.Invariant.{view, items}
use vox_lattice.Server.System.Promises.{
  pcm_sent, item_samples, sent_in_order, stream_ended_counts, no_sample_lost,
}
use vox_lattice.Server.System.Run.{turns}
use vox_lattice.Server.Fixture.{
  session, made, ready, begin, half_way, to_the_end, reach, audio_sent, program,
}

all_sent :
    (turns exact 4000 (to_the_end 100) (begin 100)).sent
    ≡ (audio_sent 100) ++ stream_ended 2 2 true ∷ []
unfolding program
all_sent = refl

stream_ended_counts_example :
    (length (pcm_sent (audio_sent 100)) ≡ 2 * 2) × (true ≡ true → ◌≡◌ {A = ℕ} 2 2)
stream_ended_counts_example =
    stream_ended_counts exact 4000 1 100 "call-1" 0 4 4 (session 100) Metrics.init ready (made 100)
      (turns exact 4000 (to_the_end 100) (begin 100)) (reach 100 (to_the_end 100)) (audio_sent 100)
      2 2 true all_sent

sent_in_order_example :
    (let s = (turns exact 4000 (to_the_end 100) (begin 100)).stream.session in
      (last : ℕ) × Sent s.input_start_sample 0 s.input_start_sample
        (turns exact 4000 (to_the_end 100) (begin 100)).sent
        s.output_sequence
        last
      × (last ≤ s.input_start_sample + s.input_samples))
sent_in_order_example =
    sent_in_order exact 4000 1 100 "call-1" 0 4 4 (session 100) Metrics.init ready (made 100)
      (turns exact 4000 (to_the_end 100) (begin 100)) (reach 100 (to_the_end 100))

still_running :
    ((turns exact 4000 (half_way 100) (begin 100)).stream.session.cancelled ≡ false)
    × ((turns exact 4000 (half_way 100) (begin 100)).stream.session.ended ≡ false)
unfolding program
still_running = (refl, refl)

no_sample_lost_example :
    (let s = turns exact 4000 (half_way 100) (begin 100) in
      s.stream.session.output_samples
        + item_samples (items (view s))
        + s.stream.session.rechunker.pending_samples
      ≡ s.stream.session.input_samples)
no_sample_lost_example =
    no_sample_lost exact 4000 1 100 "call-1" 0 4 4 (session 100) Metrics.init ready (made 100)
      (turns exact 4000 (half_way 100) (begin 100)) (reach 100 (half_way 100)) still_running.0
      still_running.1

fail_lem_example :
    (let st = (begin 100).stream in
      ((fail internal "CUDA inference failed" st).0.session
        ≡ failed internal "CUDA inference failed" st.session)
      × ((fail internal "CUDA inference failed" st).1 ≡ returned))
fail_lem_example = fail_lem internal "CUDA inference failed" (begin 100).stream

-- Streams are named by numbers here; one is active, of two that may be.
-- Room for two: the third stream and the second with an ID in use are refused, and the removal of a stream
-- that was refused leaves the one with its ID.
abbrev calls : List (Operation ℕ)
calls = adds 10 1 ∷ adds 11 2 ∷ adds 12 3 ∷ adds 10 4 ∷ removes 10 4 ∷ removes 11 2 ∷ adds 12 5 ∷ []

abbrev no_streams : StreamRegistry ℕ
no_streams = record { max_active_streams = 2; sessions = [] }

called : Refines.run ℕ_discrete calls no_streams ≡ (
  record { max_active_streams = 2; sessions = (10, 1) ∷ (12, 5) ∷ [] },
  none ∷ none ∷ some resource_exhausted ∷ some already_exists ∷ none ∷ none ∷ none ∷ [],
)
unfolding Refines.run Refines.call Registry.add Registry.remove Registry.delete lookup ℕ_discrete
called = refl

run_refines_example :
    (let r = Refines.run ℕ_discrete calls no_streams in
      let m = Refines.promised_run ℕ_discrete 2 calls (record { held = λ _. none; count = 0 }) in
      (r.1 ≡ m.1)
      × ((k : ℕ) → lookup ℕ_discrete k r.0.sessions ≡ m.0.held k)
      × (length r.0.sessions ≡ m.0.count)
      × (m.0.count ≤ 2))
run_refines_example = Refines.run_refines ℕ_discrete 2 calls

-- Two streams in a batch, each with a hop pending.
abbrev pending : ℕ → StreamSession ℤ ℕ
pending base = record (session base) {
  pending_source = some (record { start_sample = base; samples = []; valid_samples = 2 });
  input_samples = 2;
}

abbrev batch : BatchScheduler ℤ ℕ
batch = record {
  sessions = λ id. pending (id * 1000);
  metrics = Metrics.init;
  ready = ready;
  closing = false;
}

abbrev hop_work : ModelWork ℤ
hop_work = source_work (record { start_sample = 256; samples = []; valid_samples = 256 })

applied :
    (apply_all
      ((1, hop_work) ∷ (2, hop_work) ∷ [])
      ((replicate 512 7, 11) ∷ (replicate 512 9, 12) ∷ [])
      batch).1
    ≡ done
unfolding apply_all apply_result emit_previous emit_nowait put_nowait full empty inc
applied = refl

apply_all-Alike_example :
    (apply_all
        ((1, hop_work) ∷ (2, hop_work) ∷ [])
        ((replicate 512 7, 11) ∷ (replicate 512 9, 12) ∷ [])
        batch).0.sessions
      2
    ≡ (apply_result hop_work (replicate 512 9) 12 (stream_of 2 batch)).0.session
apply_all-Alike_example =
    apply_all-Alike 2 hop_work (replicate 512 9) 12 ((1, hop_work) ∷ []) []
      ((replicate 512 7, 11) ∷ []) [] batch refl ((λ e. absurd (omega (arith, e))), tt) tt applied

gather_lem_example :
    gather 2 (5 ∷ []) (some 6 ∷ some 7 ∷ none ∷ [])
    ≡ take 2 (5 ∷ arrived (some 6 ∷ some 7 ∷ none ∷ []))
gather_lem_example = gather_lem 2 5 (some 6 ∷ some 7 ∷ none ∷ []) (omega arith)
