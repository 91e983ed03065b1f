-- ===== src/Plugin/Processor/Safety.antt =====
-- The processor under any interleaving: LiveKit's thread calls `_process`, the setter of `enabled` and
-- `_close`, the gRPC thread delivers audio, generations and errors, and each locked block is a step.
use vox_lattice.Base.{
  ℕ, ◌+◌, ◌*◌, ◌≤◌, ◌≡◌, refl, inl, inr, Bool, true, false, Bool-cases, List, ok, arith, length,
}
use mathlib.Core.Path.{subst}
use vox_lattice.Plugin.Processor.{
  Processor, TransportState, AudioFrame, Admitted, init, set_enabled, generation_changed,
  protocol_error, receive_audio, admit, overflowed, due, emit, begin_close, end_close,
}
use vox_lattice.Plugin.Processor.Effects.{Inv, emit_lem, Source}
use vox_lattice.Plugin.Processor.Kept.{
  init-Inv, set_enabled-Inv, generation_changed-Inv, protocol_error-Inv, receive_audio-Inv,
  overflowed-Inv, begin_close-Inv, end_close-Inv,
}
use vox_lattice.Plugin.Processor.Process.{Accepted, admit_enabled}

-- A processor that is closed stays closed, so what runs after that is no concern of an open one.
pub data Block (p : Processor) : Processor → Type 0 where
  sets_enabled : (value : Bool) → Block p (set_enabled value p).0
  changes_generation :
      (generation : ℕ) (state : TransportState) → Block p (generation_changed generation state p)
  reports_error : (generation : ℕ) → Block p (protocol_error generation p)
  receives :
      (generation start : ℕ) (pcm : List ℕ) → Block p (receive_audio generation start pcm p).0
  admits :
      (frame : AudioFrame) (q : Processor) (what : Admitted)
      → admit frame p ≡ ok (q, what)
      → Block p q
  overflows : Block p (overflowed p)
  emits :
      (count : ℕ) (q : Processor) (out : List ℕ)
      → p.closed ≡ false
      → emit count p ≡ ok (q, out)
      → Block p q
  begins_close : Block p (begin_close p)
  ends_close : p.closed ≡ true → Block p (end_close p)

pub data Reach (p : Processor) : Processor → Type 0 where
  here : Reach p p
  next : {q r : Processor} → Reach p q → Block q r → Reach p r

admit-Inv :
    (frame : AudioFrame) (p q : Processor) (what : Admitted)
    → Inv p
    → admit frame p ≡ ok (q, what)
    → Inv q
unfolding admit
admit-Inv frame p q what i e = elim (Bool-cases p.closed) [
  | inl c ↦ absurd (ground arith)
  | inr c ↦ elim (Bool-cases p.enabled) [
    | inl on ↦
        let a : Accepted frame p = record {
          rate = ground arith;
          mono = ground arith;
          size = ground arith;
          fits = ground arith;
        } in
        let (q', e', i', _, _, _, _, _) = admit_enabled frame p i c on a in
        let same : q' ≡ q = cc in subst Inv same i'
    | inr off ↦
        let n : ℕ = p.input_cursor + frame.samples_per_channel in
        let same : record p { input_cursor = n; output_cursor = n; metrics = q.metrics } ≡ q =
          ground arith in
        subst Inv same (record {
          behind = omega arith;
          ordered = i.ordered;
          at_rest = λ _. refl;
          holds = λ _ on. absurd cc;
        })
  ]
]

emit-Inv :
    (count : ℕ) (p q : Processor) (out : List ℕ)
    → Inv p
    → p.closed ≡ false
    → emit count p ≡ ok (q, out)
    → Inv q
emit-Inv count p q out i c e =
    let (q', out', e', i', _, _, _, _) = emit_lem count p i c in
    let same : q' ≡ q = cc in subst Inv same i'

Block-Inv : (p q : Processor) → Block p q → Inv p → Inv q
Block-Inv p _ (sets_enabled value) i = set_enabled-Inv value p i
Block-Inv p _ (changes_generation generation state) i = generation_changed-Inv generation state p i
Block-Inv p _ (reports_error generation) i = protocol_error-Inv generation p i
Block-Inv p _ (receives generation start pcm) i = receive_audio-Inv generation start pcm p i
Block-Inv p q (admits frame _ what e) i = admit-Inv frame p q what i e
Block-Inv p _ overflows i = overflowed-Inv p i
Block-Inv p q (emits count _ out c e) i = emit-Inv count p q out i c e
Block-Inv p _ begins_close i = begin_close-Inv p i
Block-Inv p _ (ends_close c) i = end_close-Inv p c i

pub Reach-Inv : (p q : Processor) → Reach p q → Inv p → Inv q
Reach-Inv p q here i = i
Reach-Inv p q (next {q = r} before block) i = Block-Inv r q block (Reach-Inv p r before i)

-- In every state of an open processor that any interleaving of the locked blocks reaches from
-- a new one, the last block of _process succeeds: it puts out two bytes for each sample that
-- is due, all of them enhanced audio when every due sample has arrived and the raw audio of
-- the same samples otherwise, and the output cursor does not overtake the input cursor.
pub fallback_is_there :
    (wait max_buffer_ms count : ℕ) (p : Processor)
    → Reach (init wait max_buffer_ms) p
    → p.closed ≡ false
    → (q : Processor) × (out : List ℕ) × (emit count p ≡ ok (q, out))
      × (length out ≡ due count p * 2)
      × Source p (due count p) out
      × (q.output_cursor ≤ q.input_cursor)
fallback_is_there wait max_buffer_ms count p reach open_ =
    let i : Inv p = Reach-Inv (init wait max_buffer_ms) p reach (init-Inv wait max_buffer_ms) in
    let (q, out, e, j, _, _, size, source) = emit_lem count p i open_ in
    (q, out, e, size, source, j.behind)
