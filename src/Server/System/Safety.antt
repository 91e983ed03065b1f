-- ===== src/Server/System/Safety.antt =====
-- The invariant along the steps of a stream, and the state in which a stream begins.
use vox_lattice.Base.{ℕ, ◌*◌, max, ◌≡◌, refl, inl, false, String, ok, none, [], arith}
use mathlib.Core.Path.{subst}
use vox_lattice.Audio.Pcm.{Float32}
use vox_lattice.Audio.Rechunker
use vox_lattice.Audio.Rechunker.{hop_samples}
use vox_lattice.Server.Queue.{Queue}
use vox_lattice.Server.Metrics.{ServerMetrics, internal}
use vox_lattice.Server.Session.{StreamSession, init}
use vox_lattice.Server.System.{
  System, Step, reads, enqueues_one, stops_reading, collects, infers, inference_fails, handles,
  hangs_up, others, Reach, here, next, start, after_outcome,
}
use vox_lattice.Server.System.Invariant.{Inv, view}
use vox_lattice.Server.System.Invariant.Moves.{idle-Inv}
use vox_lattice.Server.System.Steps.Reader.{read_request-Inv}
use vox_lattice.Server.System.Steps.Enqueue.{advance-Inv}
use vox_lattice.Server.System.Steps.Inference.{fail-Inv, collect-Inv, infers-Inv}
use vox_lattice.Server.System.Steps.Handler.{finalize-Inv, handle_event-Inv}

module _ (f : Float32) {C : Type 0} (max_chunk : ℕ) where
  open f use {Value}

  pub Step-Inv : (s t : System Value C) → Step f max_chunk s t → Inv (view s) → Inv (view t)
  Step-Inv s t (reads garbage request reading idle saw_end st outcome ran) i =
      subst (λ r. Inv (view (after_outcome r.1 r.2 (record s { saw_end = r.0 })))) ran
        (read_request-Inv f max_chunk garbage request s.saw_end s refl idle i)
  Step-Inv s t (enqueues_one todo rest st exit head ran) i =
      advance-Inv f todo rest st exit s head ran i
  Step-Inv s t (stops_reading c) i = idle-Inv (view s) _ s.in_flight [] i (inl c)
  Step-Inv s t (collects st work exit free ran) i =
      subst (λ r. Inv (view (record s { stream = r.0; in_flight = r.1 }))) ran
        (collect-Inv s free i)
  Step-Inv s t (infers work pcm updated flight size) i = infers-Inv s work pcm updated flight size i
  Step-Inv s t (inference_fails work flight) i = fail-Inv internal "CUDA inference failed" none s i
  Step-Inv s t (handles st reply handling ran) i = handle_event-Inv st reply s handling ran i
  Step-Inv s t hangs_up i = finalize-Inv s.stream s i refl refl refl refl
  Step-Inv s t (others metrics ready closing) i = i

  pub Reach-Inv : (s t : System Value C) → Reach f max_chunk s t → Inv (view s) → Inv (view t)
  Reach-Inv s t here i = i
  Reach-Inv s t (next {t = u} before step) i = Step-Inv u t step (Reach-Inv s u before i)

  -- The rechunker of a new session holds a hop at least, so making one never fails.
  pub fresh :
      (object_id base : ℕ) (name : String) (caches : C) (inputs outputs : ℕ)
      → (s : StreamSession Value C) × (init object_id name base caches inputs outputs ≡ ok s)
        × ((metrics : ServerMetrics) (ready : Queue ℕ) → Inv (view (start s metrics ready)))
        × (s.input_start_sample ≡ base)
  unfolding init Rechunker.init
  fresh object_id base name caches inputs outputs = (
    record {
      object_id = object_id;
      stream_id = name;
      input_start_sample = base;
      expected_input_sample = base;
      expected_sequence = 0;
      input_samples = 0;
      output_samples = 0;
      output_sequence = 0;
      caches = caches;
      rechunker = record {
        parts = [];
        pending_samples = 0;
        next_sample = base;
        max_pending_samples = max hop_samples (inputs * hop_samples);
      };
      input_queue = record { maxsize = inputs; items = [] };
      output_queue = record { maxsize = outputs; items = [] };
      pending_source = none;
      scheduled = false;
      ended = false;
      cancelled = false;
    },
    ground arith,
    (λ metrics ready. record {
      sent_end = base;
      queue_end = base;
      sent = (refl, refl);
      unfinished = λ _. tt;
      events = refl;
      low = omega arith;
      high = λ _. omega arith;
      accounted = omega arith;
      live = λ _. record {
        flow = λ _. omega arith;
        streaming = λ _ _. tt;
        expected = omega arith;
        rechunked = omega arith;
        counted = refl;
        short = omega arith;
      };
    }),
    refl,
  )
