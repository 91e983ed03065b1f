-- ===== src/Server/Service/Effects.antt =====
-- What the service's methods do to a session.
use vox_lattice.Base.{
  ℕ, ◌+◌, ◌/◌, ◌≤◌, ◌≡◌, refl, ◌⊎◌, inl, inr, String, true, Option, none, some, Option-cases, List,
  [], ◌∷◌, ◌++◌, map, arith, length, Result, ok, raise, buffer_error,
}
use vox_lattice.Protocol.{AudioChunk}
use vox_lattice.Audio.Pcm.{Float32}
use vox_lattice.Audio.Rechunker
use vox_lattice.Audio.Rechunker.{SourceHop, PcmRechunker}
use vox_lattice.Audio.Rechunker.Calls.{to_list}
use vox_lattice.Server.Queue.{put_nowait_empty}
use vox_lattice.Server.Metrics.{StatusCode}
use vox_lattice.Server.Session.{rpc_failure, StreamSession}
use vox_lattice.Server.Scheduler.{Stream}
use vox_lattice.Server.Scheduler.Effects.{failed}
use vox_lattice.Server.Service.{
  put_source, Outcome, enqueues, violation, internal_error, reader_fails, finalize, chunk_violation,
  rechunked, counted, accept_audio, finish_flush, flushed, finish_input,
}

abbrev pub Fails : {S : Type 0} → Outcome S → Type 0
Fails (violation _ _) = Unit
Fails internal_error = Unit
Fails _ = ⊥

module _ {S C : Type 0} where
  -- A failing reader leaves the session cancelled, with the failure as its only event.
  pub reader_fails_lem :
      (status : StatusCode) (detail : String) (st : Stream S C)
      → (reader_fails status detail st).0.session ≡ failed status detail st.session
  unfolding reader_fails
  reader_fails_lem status detail st =
      ground (arith, put_nowait_empty (rpc_failure status detail) st.session.output_queue.maxsize)

  pub finalize_lem :
      (st : Stream S C)
      → (finalize st).session ≡ record st.session {
        cancelled = true;
        input_queue = record st.session.input_queue { items = [] };
        output_queue = record st.session.output_queue { items = [] };
      }
  unfolding finalize
  finalize_lem st = refl

  -- What a failing method may have changed: the counts of the input.
  pub record Kept (s t : StreamSession S C) : Type 0 where
    pub base : t.input_start_sample ≡ s.input_start_sample
    pub sequence : t.output_sequence ≡ s.output_sequence
    pub output : t.output_samples ≡ s.output_samples
    pub input : s.input_samples ≤ t.input_samples

module _ (f : Float32) {C : Type 0} where
  open f use {Value}

  abbrev pub Accepted : AudioChunk → Stream Value C → Stream Value C → Outcome Value → Type 0
  Accepted chunk st st' out =
      (hops : List (SourceHop Value)) × (r : PcmRechunker Value) × (out
        ≡ enqueues (map put_source hops))
      × (Rechunker.append f chunk.pcm_s16le st.session.rechunker ≡ ok (hops, r))
      × (st'.session ≡ record st.session {
        expected_sequence = st.session.expected_sequence + 1;
        expected_input_sample = st.session.expected_input_sample + length chunk.pcm_s16le / 2;
        input_samples = st.session.input_samples + length chunk.pcm_s16le / 2;
        rechunker = r;
      })

  rechunked_cases :
      (st : Stream Value C) (result : Result (List (SourceHop Value) × PcmRechunker Value))
      → ((hops : List (SourceHop Value)) × (r : PcmRechunker Value) × ((rechunked f st result).1
            ≡ enqueues (map put_source hops))
          × (result ≡ ok (hops, r))
          × ((rechunked f st result).0.session ≡ record st.session { rechunker = r }))
        ⊎ (Fails (rechunked f st result).1 × ((rechunked f st result).0.session ≡ st.session))
  unfolding rechunked
  rechunked_cases st (ok (hops, r)) = inl (hops, r, refl, refl, refl)
  rechunked_cases st (raise (buffer_error detail)) = inr (tt, refl)
  rechunked_cases st (raise _) = inr (tt, refl)

  accept_audio_checked :
      (max_chunk : ℕ) (chunk : AudioChunk) (st : Stream Value C)
      → chunk_violation max_chunk chunk st.session ≡ none
      → accept_audio f max_chunk chunk st
        ≡ rechunked f
            (counted f (length chunk.pcm_s16le / 2) st)
            (Rechunker.append f chunk.pcm_s16le st.session.rechunker)
  unfolding accept_audio
  accept_audio_checked max_chunk chunk st e = rw (e, accept_audio)

  accept_audio_refused :
      (max_chunk : ℕ) (chunk : AudioChunk) (st : Stream Value C) (status : StatusCode)
      (detail : String)
      → chunk_violation max_chunk chunk st.session ≡ some (status, detail)
      → accept_audio f max_chunk chunk st ≡ (st, violation status detail)
  unfolding accept_audio
  accept_audio_refused max_chunk chunk st status detail e = rw (e, accept_audio)

  -- A chunk is accepted and rechunked, or the reader fails with at most the counts changed.
  pub accept_audio_cases :
      (max_chunk : ℕ) (chunk : AudioChunk) (st : Stream Value C)
      → Accepted chunk st
          (accept_audio f max_chunk chunk st).0
          (accept_audio f max_chunk chunk st).1
        ⊎ (Fails (accept_audio f max_chunk chunk st).1
            × Kept st.session (accept_audio f max_chunk chunk st).0.session)
  accept_audio_cases max_chunk chunk st =
      elim (Option-cases (chunk_violation max_chunk chunk st.session)) [
        | inl passed ↦
            rw (accept_audio_checked max_chunk chunk st passed)
              (elim (rechunked_cases (counted f (length chunk.pcm_s16le / 2) st)
                (Rechunker.append f chunk.pcm_s16le st.session.rechunker)) [
                  | inl (hops, r, out, ran, session) ↦ inl (hops, r, out, ran, session)
                  | inr (fails, session) ↦ inr (
                    fails,
                    rw session (record {
                      base = refl;
                      sequence = refl;
                      output = refl;
                      input = omega arith;
                    }),
                  )
                ])
        | inr ((status, detail), found) ↦
            rw (accept_audio_refused max_chunk chunk st status detail found) (
              inr (tt, record { base = refl; sequence = refl; output = refl; input = omega arith }))
      ]

  -- The end of the input with a flush lists the last hop and the flush, or the reader fails.
  pub finish_input_cases :
      (garbage : List Value) (st : Stream Value C)
      → ((o : Option (SourceHop Value)) × (r : PcmRechunker Value) × ((finish_input f true garbage
              st).1
            ≡ enqueues (map put_source (to_list o) ++ finish_flush ∷ []))
          × (Rechunker.flush_partial f st.session.rechunker ≡ ok (o, r))
          × ((finish_input f true garbage st).0.session ≡ record st.session { rechunker = r }))
        ⊎ (Fails (finish_input f true garbage st).1
            × ((finish_input f true garbage st).0.session ≡ st.session))
  unfolding finish_input flushed
  finish_input_cases garbage st = flushed_cases (Rechunker.flush_partial f st.session.rechunker)
    where
      flushed_cases :
          (result : Result (Option (SourceHop Value) × PcmRechunker Value))
          → ((o : Option (SourceHop Value)) × (r : PcmRechunker Value) × ((flushed f st result).1
                ≡ enqueues (map put_source (to_list o) ++ finish_flush ∷ []))
              × (result ≡ ok (o, r))
              × ((flushed f st result).0.session ≡ record st.session { rechunker = r }))
            ⊎ (Fails (flushed f st result).1 × ((flushed f st result).0.session ≡ st.session))
      flushed_cases (ok (none, r)) = inl (none, r, refl, refl, refl)
      flushed_cases (ok (some h, r)) = inl (some h, r, refl, refl, refl)
      flushed_cases (raise _) = inr (tt, refl)
