-- ===== src/Server/System/Origin.antt =====
-- No step of a stream changes the sample at which its input began.
use vox_lattice.Base.{
  ℕ, ◌≡◌, refl, ◌∙◌, sym, ap, Bool, true, Option, none, some, String, List, arith, Result,
}
use vox_lattice.Audio.Pcm.{Float32}
use vox_lattice.Audio.Rechunker.{SourceHop, PcmRechunker}
use vox_lattice.Server.Queue
use vox_lattice.Server.Metrics.{StatusCode, internal, resource_exhausted}
use vox_lattice.Server.Session.{
  ModelWork, enqueue_source, enqueue_flush, enqueue_no_flush, emit_nowait, cancel,
}
use vox_lattice.Server.Scheduler.{
  Stream, Exit, full_detail, with_session, fail, notify, drain_output, complete,
  complete_empty_flush, complete_without_flush, collect, emit_previous, apply_result,
}
use vox_lattice.Server.Service.{
  Outcome, Reply, Todo, emit_failure, reader_fails, handle_event, finalize, accept_audio, rechunked,
  flushed, finish_input, advance, read_request, Request,
}
use vox_lattice.Server.System.{
  System, Step, reads, enqueues_one, stops_reading, collects, infers, inference_fails, handles,
  hangs_up, others, Reach, here, next, after_outcome, after_advance, after_reply, reader_ends,
}

module _ {S C : Type 0} where
  abbrev base : Stream S C → ℕ
  base st = st.session.input_start_sample

  base-drain_output : (st : Stream S C) → base (drain_output st) ≡ base st
  unfolding drain_output
  base-drain_output st = refl

  base-fail :
      (status : StatusCode) (detail : String) (st : Stream S C)
      → base (fail status detail st).0 ≡ base st
  unfolding fail emit_nowait cancel drain_output Queue.put_nowait
  base-fail status detail st = ground arith

  base-notify : (st : Stream S C) → base (notify st).0 ≡ base st
  unfolding notify
  base-notify st = ground arith

  base-complete : (flag : Bool) (st : Stream S C) → base (complete flag st).0 ≡ base st
  unfolding complete emit_nowait Queue.put_nowait
  base-complete flag st = ground (
    arith,
    base-fail resource_exhausted full_detail (with_session (record st.session { ended = true }) st),
  )

  base-collect : (st : Stream S C) → base (collect st).0 ≡ base st
  unfolding collect complete_without_flush
  base-collect st = grind (arith, base-complete)

  base-reader_fails :
      (status : StatusCode) (detail : String) (st : Stream S C)
      → base (reader_fails status detail st).0 ≡ base st
  unfolding reader_fails emit_failure cancel drain_output emit_nowait
  base-reader_fails status detail st = ground arith

  base-finalize : (st : Stream S C) → base (finalize st) ≡ base st
  unfolding finalize cancel drain_output
  base-finalize st = refl

  base-handle_event :
      (st st' : Stream S C) (reply : Reply)
      → handle_event st ≡ some (st', reply)
      → base st' ≡ base st
  unfolding handle_event Queue.get_nowait
  base-handle_event st st' reply e = ground arith

  base-emit_previous :
      (pcm : List ℕ) (o : Option (SourceHop S)) (st : Stream S C)
      → base (emit_previous pcm o st).0 ≡ base st
  unfolding emit_previous emit_nowait
  base-emit_previous pcm none st = refl
  base-emit_previous pcm (some p) st = grind (arith, base-fail)

  base-apply_result :
      (work : ModelWork S) (pcm : List ℕ) (updated : C) (st : Stream S C)
      → base (apply_result work pcm updated st).0 ≡ base st
  unfolding apply_result
  base-apply_result work pcm updated st =
      grind (arith, base-complete, base-notify, base-emit_previous)

module _ (f : Float32) {C : Type 0} (max_chunk : ℕ) where
  open f use {Value}

  base-rechunked :
      (st : Stream Value C) (r : Result (List (SourceHop Value) × PcmRechunker Value))
      → base (rechunked f st r).0 ≡ base st
  unfolding rechunked
  base-rechunked st r = ground arith

  base-flushed :
      (st : Stream Value C) (r : Result (Option (SourceHop Value) × PcmRechunker Value))
      → base (flushed f st r).0 ≡ base st
  unfolding flushed
  base-flushed st r = ground arith

  base-read_request :
      (garbage : List Value) (saw_end : Bool) (request : Request) (st : Stream Value C)
      → base (read_request f max_chunk garbage saw_end request st).1 ≡ base st
  unfolding read_request accept_audio finish_input
  base-read_request garbage saw_end request st = grind (arith, base-rechunked, base-flushed)

  base-advance :
      (todo : Todo Value) (st st' : Stream Value C) (exit : Exit)
      → advance f todo st ≡ some (st', exit)
      → base st' ≡ base st
  unfolding advance complete_empty_flush enqueue_source enqueue_flush enqueue_no_flush
  base-advance todo st st' exit e = grind (arith, base-complete, base-notify)

  base-after_outcome :
      (st : Stream Value C) (outcome : Outcome Value) (s : System Value C)
      → base (after_outcome st outcome s).stream ≡ base st
  unfolding after_outcome reader_ends
  base-after_outcome st outcome s = grind (arith, base-reader_fails)

  base-after_advance :
      (rest : List (Todo Value)) (st : Stream Value C) (exit : Exit) (s : System Value C)
      → base (after_advance rest st exit s).stream ≡ base st
  unfolding after_advance reader_ends
  base-after_advance rest st exit s = grind (arith, base-reader_fails)

  base-after_reply :
      (st : Stream Value C) (reply : Reply) (s : System Value C)
      → base (after_reply st reply s).stream ≡ base st
  unfolding after_reply
  base-after_reply st reply s = grind (arith, base-finalize)

  base-Step : (s t : System Value C) → Step f max_chunk s t → base t.stream ≡ base s.stream
  base-Step s t (reads garbage request _ _ saw_end st outcome ran) =
      base-after_outcome st outcome (record s { saw_end = saw_end })
      ∙ sym (ap (λ r. base r.1) ran)
      ∙ base-read_request garbage s.saw_end request s.stream
  base-Step s t (enqueues_one todo rest st exit _ ran) =
      base-after_advance rest st exit s ∙ base-advance todo s.stream st exit ran
  base-Step s t (stops_reading _) = refl
  base-Step s t (collects st work exit _ ran) = sym (ap (λ r. base r.0) ran) ∙ base-collect s.stream
  base-Step s t (infers work pcm updated _ _) = base-apply_result work pcm updated s.stream
  base-Step s t (inference_fails _ _) = base-fail internal "CUDA inference failed" s.stream
  base-Step s t (handles st reply _ ran) =
      base-after_reply st reply s ∙ base-handle_event s.stream st reply ran
  base-Step s t hangs_up = base-finalize s.stream
  base-Step s t (others _ _ _) = refl

  pub base-Reach :
      (s t : System Value C)
      → Reach f max_chunk s t
      → t.stream.session.input_start_sample ≡ s.stream.session.input_start_sample
  base-Reach s t here = refl
  base-Reach s t (next {t = u} before step) = base-Step u t step ∙ base-Reach s u before
