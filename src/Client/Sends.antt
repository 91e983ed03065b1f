-- ===== src/Client/Sends.antt =====
-- The messages of the client against the server's checks.
use text.Mathlib.TextPositions.{len-append}
use vox_lattice.Base.{
  ℕ, zero, suc, ◌+◌, ◌*◌, ◌/◌, ◌%◌, ◌≤◌, ◌<◌, ◌≡◌, refl, sym, append_assoc, append-nil, ap, ◌∙◌,
  String, len, ◌<>◌, true, List, [], ◌∷◌, ◌++◌, length, length-take, length-drop, take, drop,
  take-append-drop, ok, arith,
}
use vox_lattice.Audio.Pcm.{Float32}
use vox_lattice.Protocol.{StartStream, ClientMessage, start, audio, end_stream}
use vox_lattice.Server.Scheduler.{Stream}
use vox_lattice.Server.Service.{chunk_violation, counted}
use vox_lattice.Server.Start.{IsStart}
use vox_lattice.Plugin.Transport.Requests.Accepted.{Passes}
use vox_lattice.Client.{first_message, chunks, requests}

-- The PCM of the messages.
abbrev pub pcm_of : List ClientMessage → List ℕ
pcm_of [] = []
pcm_of (audio c ∷ r) = c.pcm_s16le ++ pcm_of r
pcm_of (_ ∷ r) = pcm_of r

pcm_of-chunks :
    (fuel k sequence byte_start : ℕ) (pcm : List ℕ) (tail : List ClientMessage)
    → 0 < k
    → length pcm ≤ fuel
    → pcm_of (chunks fuel k sequence byte_start pcm ++ tail) ≡ pcm ++ pcm_of tail
unfolding chunks
pcm_of-chunks zero k q a [] tail pos enough = refl
pcm_of-chunks zero k q a (b ∷ pcm) tail pos enough = absurd (omega (arith, enough))
pcm_of-chunks (suc fuel) k q a [] tail pos enough = refl
pcm_of-chunks (suc fuel) k q a (b ∷ pcm) tail pos enough =
    let shorter : length (drop (k * 2) (b ∷ pcm)) ≤ fuel =
      omega (arith, length-drop (k * 2) (b ∷ pcm), pos, enough) in
    ap (λ l. take (k * 2) (b ∷ pcm) ++ l)
      (pcm_of-chunks fuel k (q + 1) (a + k * 2) (drop (k * 2) (b ∷ pcm)) tail pos shorter)
    ∙ sym (append_assoc (take (k * 2) (b ∷ pcm)) (drop (k * 2) (b ∷ pcm)) (pcm_of tail))
    ∙ ap (λ l. l ++ pcm_of tail) (take-append-drop (k * 2) (b ∷ pcm))

module _ (f : Float32) {C : Type 0} where
  open f use {Value}

  chunks-Passes :
      (max_chunk fuel k sequence byte_start : ℕ) (pcm : List ℕ) (st : Stream Value C)
      → 0 < k
      → k ≤ max_chunk
      → byte_start % 2 ≡ 0
      → length pcm % 2 ≡ 0
      → st.session.expected_sequence ≡ sequence
      → (0 < length pcm → st.session.expected_input_sample ≡ byte_start / 2)
      → Passes f max_chunk st (chunks fuel k sequence byte_start pcm ++ end_stream true ∷ [])
  unfolding chunks chunk_violation
  chunks-Passes max_chunk zero k q a pcm st pos small even_start even e g = refl
  chunks-Passes max_chunk (suc fuel) k q a [] st pos small even_start even e g = refl
  chunks-Passes max_chunk (suc fuel) k q a (b ∷ pcm) st pos small even_start even e g =
      let size = length-take (k * 2) (b ∷ pcm) in
      let rest = length-drop (k * 2) (b ∷ pcm) in
      (
        ground (arith, size, pos, small, even, e, g (omega arith)),
        chunks-Passes max_chunk fuel k (q + 1) (a + k * 2) (drop (k * 2) (b ∷ pcm))
            (counted f (length (take (k * 2) (b ∷ pcm)) / 2) st) pos small
            (omega (arith, even_start)) (omega (arith, rest, even)) (omega (arith, e))
            (λ more. omega (arith, size, rest, more, even_start, g (omega arith))),
      )

  -- For audio of whole samples and a chunk size between one sample and the limit of the
  -- server, with a process number of at most 122 digits, the client's first message meets the
  -- protocol at sample 0, the audio of its chunks put together is its input, and they pass the
  -- checks of a server that expects sample 0, one after another.
  pub requests_lem :
      (max_chunk : ℕ) (pid : String) (pcm : List ℕ) (chunk_samples : ℕ) (st : Stream Value C)
      → len pid ≤ 122
      → 0 < chunk_samples
      → chunk_samples ≤ max_chunk
      → length pcm % 2 ≡ 0
      → st.session.expected_sequence ≡ 0
      → st.session.expected_input_sample ≡ 0
      → (first : StartStream) × (messages : List ClientMessage) × (requests pid pcm chunk_samples
          ≡ ok (start first ∷ messages))
        × IsStart first
        × (first.input_start_sample ≡ 0)
        × (pcm_of messages ≡ pcm)
        × Passes f max_chunk st messages
  unfolding requests
  requests_lem max_chunk pid pcm k st short pos small even sequence sample =
      let id : len ("smoke-" <> pid) ≡ 6 + len pid = len-append "smoke-" pid in
      (
        first_message pid,
        chunks (length pcm) k 0 0 pcm ++ end_stream true ∷ [],
        ground (arith, pos),
        record {
          version = refl;
          some_id = omega (arith, id);
          short_id = omega (arith, id, short);
          rate = refl;
          mono = refl;
          format = refl;
          entries = omega arith;
          entries_fit = (omega arith, omega arith, omega arith, tt);
        },
        refl,
        pcm_of-chunks (length pcm) k 0 0 pcm (end_stream true ∷ []) pos (omega arith)
            ∙ append-nil pcm,
        chunks-Passes max_chunk (length pcm) k 0 0 pcm st pos small refl even sequence
            (λ _. sample),
      )
