-- ===== src/Server/System/Steps/Reader.antt =====
-- Reading a request keeps the invariant, whatever the request.
use vox_lattice.Base.{
  ℕ, ◌/◌, ◌≡◌, refl, inl, inr, String, Bool, true, false, List, [], arith, length,
}
use mathlib.Core.Path.{subst}
use vox_lattice.Protocol.{AudioChunk}
use vox_lattice.Audio.Pcm.{Float32}
use vox_lattice.Audio.Rechunker.Calls.{append_inv, flush_partial_inv}
use vox_lattice.Server.Metrics.{StatusCode, internal}
use vox_lattice.Server.Session.{StreamSession}
use vox_lattice.Server.Scheduler.{Stream}
use vox_lattice.Server.Service.{
  Request, start_again, empty_message, closed, timed_out, broken, audio, end_stream, Outcome,
  enqueues, violation, internal_error, finished, accept_audio, finish_input, read_request,
}
use vox_lattice.Server.Service.Effects.{
  reader_fails_lem, Fails, Kept, accept_audio_cases, finish_input_cases,
}
use vox_lattice.Server.System.{System, reader_ends, after_outcome}
use vox_lattice.Server.System.Invariant.{Inv, view, cancelled-Inv}
use vox_lattice.Server.System.Invariant.Reads.{accepted-Inv, flushed-Inv, unflushed-Inv}

module _ {S C : Type 0} where
  pub Kept-refl : (s : StreamSession S C) → Kept s s
  Kept-refl s = record { base = refl; sequence = refl; output = refl; input = omega arith }

  -- The reader fails after it changed at most the counts of the input.
  pub reader_ends-Inv :
      (status : StatusCode) (detail : String) (st : Stream S C) (saw_end : Bool) (s : System S C)
      → Inv (view s)
      → Kept s.stream.session st.session
      → Inv (view (reader_ends status detail st (record s { saw_end = saw_end })))
  unfolding reader_ends
  reader_ends-Inv status detail st saw_end s i k = rw (reader_fails_lem status detail st) (
      cancelled-Inv {v = view s} _ i refl k.base k.sequence refl k.output k.input (λ h. h)
        (λ n. refl))

  outcome_fails-Inv :
      (out : Outcome S) (st : Stream S C) (saw_end : Bool) (s : System S C)
      → Fails out
      → Inv (view s)
      → Kept s.stream.session st.session
      → Inv (view (after_outcome st out (record s { saw_end = saw_end })))
  unfolding after_outcome
  outcome_fails-Inv (enqueues t) st saw_end s x i k = absurd x
  outcome_fails-Inv (violation status detail) st saw_end s x i k =
      reader_ends-Inv status detail st saw_end s i k
  outcome_fails-Inv internal_error st saw_end s x i k =
      reader_ends-Inv internal "request processing failed" st saw_end s i k
  outcome_fails-Inv finished st saw_end s x i k = absurd x

module _ (f : Float32) {C : Type 0} (max_chunk : ℕ) (garbage : List f.Value) where
  open f use {Value}

  audio-Inv :
      (chunk : AudioChunk) (s : System Value C)
      → s.saw_end ≡ false
      → s.todo ≡ []
      → Inv (view s)
      → Inv (
          view (
            after_outcome
              (accept_audio f max_chunk chunk s.stream).0
              (accept_audio f max_chunk chunk s.stream).1
              (record s { saw_end = false })))
  unfolding after_outcome
  audio-Inv chunk s open_end idle i = elim (accept_audio_cases f max_chunk chunk s.stream) [
    | inl (hops, r, out, ran, session) ↦
        rw (out, session)
          (accepted-Inv (view s) (length chunk.pcm_s16le / 2) hops r i open_end idle λ c.
            append_inv f chunk.pcm_s16le s.stream.session.rechunker r hops (i.live c).counted ran)
    | inr (fails, k) ↦ outcome_fails-Inv _ _ false s fails i k
  ]

  end_stream-Inv :
      (flush : Bool) (s : System Value C)
      → s.saw_end ≡ false
      → s.todo ≡ []
      → Inv (view s)
      → Inv (
          view (
            after_outcome
              (finish_input f flush garbage s.stream).0
              (finish_input f flush garbage s.stream).1
              (record s { saw_end = true })))
  unfolding after_outcome
  end_stream-Inv true s open_end idle i = elim (finish_input_cases f garbage s.stream) [
    | inl (o, r, out, ran, session) ↦
        rw (out, session)
          (flushed-Inv (view s) o r i open_end idle λ c.
            flush_partial_inv f s.stream.session.rechunker r o (i.live c).counted (i.live c).short
              ran)
    | inr (fails, session) ↦
        outcome_fails-Inv _ _ true s fails i (rw session (Kept-refl s.stream.session))
  ]
  end_stream-Inv false s open_end idle i =
      unfold finish_input in unflushed-Inv (view s) garbage i open_end idle

  -- Whatever comes, the invariant holds after it.
  pub read_request-Inv :
      (request : Request) (saw_end : Bool) (s : System Value C)
      → s.saw_end ≡ saw_end
      → s.todo ≡ []
      → Inv (view s)
      → (let (saw_end', st, out) = read_request f max_chunk garbage saw_end request s.stream in
          Inv (view (after_outcome st out (record s { saw_end = saw_end' }))))
  unfolding read_request
  read_request-Inv closed true s e idle i =
      unfold after_outcome in subst (λ b. Inv (record (view s) { saw_end = b })) e i
  read_request-Inv closed false s e idle i =
      outcome_fails-Inv _ _ false s tt i (Kept-refl s.stream.session)
  read_request-Inv timed_out true s e idle i =
      outcome_fails-Inv _ _ true s tt i (Kept-refl s.stream.session)
  read_request-Inv timed_out false s e idle i =
      outcome_fails-Inv _ _ false s tt i (Kept-refl s.stream.session)
  read_request-Inv broken true s e idle i =
      outcome_fails-Inv _ _ true s tt i (Kept-refl s.stream.session)
  read_request-Inv broken false s e idle i =
      outcome_fails-Inv _ _ false s tt i (Kept-refl s.stream.session)
  read_request-Inv start_again true s e idle i =
      outcome_fails-Inv _ _ true s tt i (Kept-refl s.stream.session)
  read_request-Inv empty_message true s e idle i =
      outcome_fails-Inv _ _ true s tt i (Kept-refl s.stream.session)
  read_request-Inv (audio chunk) true s e idle i =
      outcome_fails-Inv _ _ true s tt i (Kept-refl s.stream.session)
  read_request-Inv (end_stream flush) true s e idle i =
      outcome_fails-Inv _ _ true s tt i (Kept-refl s.stream.session)
  read_request-Inv start_again false s e idle i =
      outcome_fails-Inv _ _ false s tt i (Kept-refl s.stream.session)
  read_request-Inv empty_message false s e idle i =
      outcome_fails-Inv _ _ false s tt i (Kept-refl s.stream.session)
  read_request-Inv (audio chunk) false s e idle i = audio-Inv chunk s e idle i
  read_request-Inv (end_stream flush) false s e idle i = end_stream-Inv flush s e idle i
