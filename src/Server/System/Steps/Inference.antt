-- ===== src/Server/System/Steps/Inference.antt =====
-- The scheduler's steps keep the invariant: it takes a work, and the inference returns or raises.
use vox_lattice.Base.{
  ℕ, ◌+◌, ◌*◌, ◌≡◌, refl, inl, inr, ap, sym, ◌∙◌, ◌||◌, Bool, true, false, Bool-cases, Option, none,
  some, List, [], ◌∷◌, ◌++◌, String, arith, length, take, length-take,
}
use mathlib.Core.Path.{subst}
use vox_lattice.Audio.Rechunker.{SourceHop, hop_samples}
use vox_lattice.Server.Metrics.{StatusCode}
use vox_lattice.Server.Session.{ModelWork, StreamSession, stream_completion}
use vox_lattice.Server.Scheduler.{
  Stream, Exit, fail, complete, complete_without_flush, collect, apply_result, with_session,
}
use vox_lattice.Server.Scheduler.Effects.{
  fail_lem, complete_lem, Collected, rests, ends, takes, taken, collect_cases, Emitted, nothing,
  queued, fails, emit_previous_cases, Applied, stopped, last, more, emission, updated_session,
  apply_result_cases,
}
use vox_lattice.Server.System.{System}
use vox_lattice.Server.System.Flow.{Flow, flight_items}
use vox_lattice.Server.System.Invariant.{View, Inv, view, items, queued as waiting, cancelled-Inv}
use vox_lattice.Server.System.Invariant.Moves.{
  completed-Inv, emitted-Inv, taken-Inv, collected-Inv, idle-Inv, flush_counts, next_pending,
  pending_first,
}

module _ {S : Type 0} where
  -- The pending hop has at most 256 samples, so its bytes are there.
  pending_bytes :
      (v : View S) (p : SourceHop S) (pcm : List ℕ)
      → v.pending_source ≡ some p
      → length pcm ≡ hop_samples * 2
      → Flow
          (v.base + v.output_samples)
          (items v)
          v.rechunker.next_sample
          v.rechunker.pending_samples
      → length (take (p.valid_samples * 2) pcm) ≡ p.valid_samples * 2
  pending_bytes v p pcm e size h =
      let (at, is_hop, _) =
        pending_first (v.base + v.output_samples) v.pending_source p
          (flight_items v.in_flight ++ waiting v) v.rechunker.next_sample
          v.rechunker.pending_samples e h in
      ground (arith, length-take (p.valid_samples * 2) pcm, is_hop.fits)

module _ {S C : Type 0} where
  -- The stream fails: it is cancelled, with the failure as its only event.
  pub fail-Inv :
      (status : StatusCode) (detail : String) (flight : Option (ModelWork S)) (s : System S C)
      → Inv (view s)
      → Inv (view (record s { stream = (fail status detail s.stream).0; in_flight = flight }))
  fail-Inv status detail flight s i =
      rw ((fail_lem status detail s.stream).0)
        (cancelled-Inv {v = view s} _ i refl refl refl refl refl (omega arith) (λ h. h) (λ n. refl))

  -- An open stream completes, or fails for want of room.
  complete-Inv :
      (flushed : Bool) (t : Stream S C) (s : System S C)
      → Inv (view s)
      → s.stream.session.cancelled ≡ false
      → t.session.ended ≡ false
      → (flushed ≡ true → s.stream.session.input_samples ≡ s.stream.session.output_samples)
      → (p : Option (SourceHop S)) (ws : List (ModelWork S)) (b : Bool) (caches : C)
      → t.session ≡ record s.stream.session {
        pending_source = p;
        scheduled = b;
        caches = caches;
        input_queue = record s.stream.session.input_queue { items = ws };
      }
      → Inv (view (record s { stream = (complete flushed t).0; in_flight = none }))
  complete-Inv flushed t s i c open_ counts p ws b caches same =
      elim (complete_lem flushed t open_) [
        | inl e ↦ rw (e, same) (completed-Inv (view s) flushed p ws none s.todo i (inl c) counts)
        | inr e ↦
            rw (e, same)
              (cancelled-Inv {v = view s} _ i refl refl refl refl refl (omega arith) (λ h. h)
                (λ n. refl))
      ]

  ended_early :
      (s : System S C) (w : ModelWork S) (ws : List (ModelWork S)) (t : Stream S C)
      → Inv (view s)
      → (s.stream.session.cancelled ≡ false) × (s.stream.session.ended ≡ false)
      → t.session ≡ taken ws s.stream
      → Inv (view (record s { stream = (complete_without_flush t).0; in_flight = none }))
  unfolding complete_without_flush
  ended_early s w ws t i running same =
      complete-Inv false (with_session (record t.session { pending_source = none }) t) s i running.0
        (ap (λ u. u.ended) same ∙ running.1) (λ h. cc) none ws false s.stream.session.caches
        (ap {A = StreamSession S C} (λ u. record u { pending_source = none }) same)

  pub collect-Inv :
      (s : System S C)
      → s.in_flight ≡ none
      → Inv (view s)
      → Inv (view (record s { stream = (collect s.stream).0; in_flight = (collect s.stream).1 }))
  collect-Inv s free i = moved (collect_cases s.stream)
    where
      moved :
          Collected s.stream (collect s.stream).0.session (collect s.stream).1
          → Inv
              (view (record s { stream = (collect s.stream).0; in_flight = (collect s.stream).1 }))
      moved (rests e n) = rw (e, n, ← free) i
      moved (takes w ws running q e n) = rw (e, n) (collected-Inv (view s) w ws i free q)
      moved (ends w ws t running q same e n) = rw (e, n) (ended_early s w ws t i running same)

  -- The inference of a stream that is cancelled or ended is dropped.
  apply_result_idle :
      (w : ModelWork S) (pcm : List ℕ) (caches : C) (t : Stream S C)
      → (t.session.cancelled || t.session.ended) ≡ true
      → (apply_result w pcm caches t).0 ≡ t
  unfolding apply_result
  apply_result_idle w pcm caches t e = ground arith

  -- What is left of `apply_result` when the hop before is emitted: `v` is the view before the work
  -- is done, and `e` the stream after the emission.
  applied-Inv :
      (s : System S C) (w : ModelWork S) (e : Stream S C) (t : Stream S C) (v : View S)
      → Inv v
      → v.cancelled ≡ false
      → v.ended ≡ false
      → v.pending_source ≡ none
      → v.in_flight ≡ some w
      → view (record s { stream = e; in_flight = none })
        ≡ record v { pending_source = next_pending w; in_flight = none }
      → Applied w e true t.session
      → Inv (view (record s { stream = t; in_flight = none }))
  applied-Inv s w e t v i c open_ pending flight same a = after a
    where
      out : View S
      out = view (record s { stream = e; in_flight = none })

      out-Inv : Inv out
      out-Inv = rw same (taken-Inv v w i pending flight)

      finished : View S → View S
      finished u = record u {
        ended = true;
        events = u.events ++ stream_completion u.input_samples u.output_samples true ∷ [];
      }

      after : Applied w e true t.session → Inv (view (record s { stream = t; in_flight = none }))
      after (stopped bad q) = absurd cc
      after (more b on q) = rw q out-Inv
      after (last on flush q) = elim (complete_lem true e (ap (λ u. u.ended) same ∙ open_)) [
        | inl h ↦
            rw (q, h)
              (subst Inv (sym (ap finished same)) (
                completed-Inv v true (next_pending w) v.works none v.todo i (inl c)
                  (λ _. flush_counts v w i c open_ pending flight flush)))
        | inr h ↦
            rw (q, h)
              (cancelled-Inv {v = out} _ out-Inv refl refl refl refl refl (omega arith) (λ h. h)
                (λ n. refl))
      ]

  -- The output of the hop before: `a` is what follows it.
  emission-Inv :
      (s : System S C) (w : ModelWork S) (pcm : List ℕ) (caches : C) (t : Stream S C)
      → s.in_flight ≡ some w
      → length pcm ≡ hop_samples * 2
      → Inv (view s)
      → s.stream.session.cancelled ≡ false
      → s.stream.session.ended ≡ false
      → Applied w (emission w pcm caches s.stream).0 (emission w pcm caches s.stream).1 t.session
      → Inv (view (record s { stream = t; in_flight = none }))
  emission-Inv s w pcm caches t flight size i c open_ a = after (
      emit_previous_cases pcm s.stream.session.pending_source
        (with_session (updated_session w caches s.stream.session) s.stream))
    where
      out : Stream S C × Bool × Exit
      out = emission w pcm caches s.stream

      after :
          Emitted pcm s.stream.session.pending_source
            (updated_session w caches s.stream.session)
            out.0.session
            out.1
          → Inv (view (record s { stream = t; in_flight = none }))
      after (nothing p e on) =
          applied-Inv s w out.0 t (view s) i c open_ p flight (rw e refl)
            (subst (λ b. Applied w out.0 b t.session) on a)
      after (queued p pending e on) =
          applied-Inv s w out.0 t _
            (emitted-Inv (view s) p (take (p.valid_samples * 2) pcm) i c open_ pending
              (pending_bytes (view s) p pcm pending size ((i.live c).flow open_)))
            c open_ refl flight (rw e refl) (subst (λ b. Applied w out.0 b t.session) on a)
      after (fails e off) = ended_there a
        where
          ended_there :
              Applied w out.0 out.1 t.session
              → Inv (view (record s { stream = t; in_flight = none }))
          ended_there (stopped _ q) =
              rw (q, e)
                (cancelled-Inv {v = view s} _ i refl refl refl refl refl (omega arith) (λ h. h)
                  (λ n. refl))
          ended_there (last on _ _) = absurd cc
          ended_there (more _ on _) = absurd cc

  pub infers-Inv :
      (s : System S C) (w : ModelWork S) (pcm : List ℕ) (caches : C)
      → s.in_flight ≡ some w
      → length pcm ≡ hop_samples * 2
      → Inv (view s)
      → Inv (view (record s { stream = (apply_result w pcm caches s.stream).0; in_flight = none }))
  infers-Inv s w pcm caches flight size i =
      elim (Bool-cases (s.stream.session.cancelled || s.stream.session.ended)) [
        | inl idle ↦
            rw (apply_result_idle w pcm caches s.stream idle)
              (idle-Inv (view s) _ none s.todo i (ground arith))
        | inr runs ↦
            emission-Inv s w pcm caches (apply_result w pcm caches s.stream).0 flight size i
              (ground arith) (ground arith)
              (apply_result_cases w pcm caches s.stream (ground arith) (ground arith))
      ]
