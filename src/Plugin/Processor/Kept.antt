-- ===== src/Plugin/Processor/Kept.antt =====
-- The other blocks of the processor, each with the invariant.
use vox_lattice.Base.{
  ℕ, ◌+◌, ◌/◌, ◌≡◌, refl, inl, inr, Bool, true, not, ◌||◌, Bool-cases, List, [], Result-cases, ltb,
  leb, ◌==◌, if◌then◌else◌, arith, length,
}
use mathlib.Core.Path.{subst}
use vox_lattice.Timeline.ContiguousPcm
use vox_lattice.Timeline.EnhancedSegments
use vox_lattice.Timeline.EnhancedSegments.{Segment}
use vox_lattice.Timeline.EnhancedSegments.Spec.{Ordered}
use vox_lattice.Timeline.EnhancedSegments.Insert.{insert_refines}
use vox_lattice.Plugin.Processor.{
  Processor, PluginMetrics, TransportState, mismatch, init, set_enabled, generation_changed,
  protocol_error, keep_audio, receive_audio, overflowed, begin_close, end_close,
}
use vox_lattice.Plugin.Processor.Effects.{Inv, clear_at-Holds}

pub init-Inv : (wait max_buffer_ms : ℕ) → Inv (init wait max_buffer_ms)
unfolding ContiguousPcm.end_sample
init-Inv wait max_buffer_ms = record {
  behind = omega arith;
  ordered = tt;
  at_rest = λ e. refl;
  holds = λ c e. record { starts = refl; ends = refl; whole = refl };
}

-- Without the enhanced audio, or with other counters, the invariant stays.
same-Inv :
    (p : Processor) (es : List Segment) (m : PluginMetrics) (generation : ℕ)
    (state : TransportState)
    → Inv p
    → Ordered 0 es
    → Inv (record p {
      enhanced = es;
      metrics = m;
      remote_generation = generation;
      transport_state = state;
    })
same-Inv p es m generation state i o = record {
  behind = i.behind;
  ordered = o;
  at_rest = i.at_rest;
  holds = i.holds;
}

pub set_enabled-Inv : (value : Bool) (p : Processor) → Inv p → Inv (set_enabled value p).0
unfolding set_enabled
set_enabled-Inv value p i = elim (Bool-cases p.closed) [
  | inl c ↦ subst Inv (ground (arith, c)) i
  | inr c ↦ elim (Bool-cases (if value then p.enabled else not p.enabled)) [
    | inl same ↦ subst Inv (ground (arith, c, same)) i
    | inr changed ↦
        rw (c, changed)
          (record {
            behind = omega arith;
            ordered = tt;
            at_rest = λ e. refl;
            holds = λ x e. clear_at-Holds p.input_cursor p.raw;
          })
  ]
]

pub generation_changed-Inv :
    (generation : ℕ) (state : TransportState) (p : Processor)
    → Inv p
    → Inv (generation_changed generation state p)
unfolding generation_changed
generation_changed-Inv generation state p i =
    elim (Bool-cases (ltb p.remote_generation generation)) [
      | inl later ↦ rw later (same-Inv p [] _ generation state i tt)
      | inr earlier ↦
          rw earlier (same-Inv p p.enhanced p.metrics p.remote_generation state i i.ordered)
    ]

pub protocol_error-Inv :
    (generation : ℕ) (p : Processor) → Inv p → Inv (protocol_error generation p)
unfolding protocol_error
protocol_error-Inv generation p i = elim (Bool-cases (leb p.remote_generation generation)) [
  | inl e ↦ rw e (same-Inv p [] _ p.remote_generation p.transport_state i tt)
  | inr e ↦ rw e i
]

keep_audio-Inv : (start : ℕ) (pcm : List ℕ) (p : Processor) → Inv p → Inv (keep_audio start pcm p).0
unfolding keep_audio
keep_audio-Inv start pcm p i = elim (Bool-cases (ltb p.input_cursor (start + length pcm / 2))) [
  | inl beyond ↦
      rw beyond (same-Inv p p.enhanced _ p.remote_generation p.transport_state i i.ordered)
  | inr within ↦ elim (Result-cases (EnhancedSegments.insert start pcm p.enhanced)) [
    | inl (es, e) ↦ subst Inv (ground (arith, within, e)) (
        same-Inv p es p.metrics p.remote_generation p.transport_state i
          (insert_refines start pcm p.enhanced es i.ordered e).0)
    | inr (x, e) ↦
        subst Inv (ground (arith, within, e))
          (same-Inv p [] (mismatch p.metrics) p.remote_generation p.transport_state i tt)
  ]
]

pub receive_audio-Inv :
    (generation start : ℕ) (pcm : List ℕ) (p : Processor)
    → Inv p
    → Inv (receive_audio generation start pcm p).0
unfolding receive_audio
receive_audio-Inv generation start pcm p i =
    elim (Bool-cases
      (not (generation == p.remote_generation) || leb (start + length pcm / 2) p.output_cursor)) [
        | inl late ↦
            rw late (same-Inv p p.enhanced _ p.remote_generation p.transport_state i i.ordered)
        | inr wanted ↦ elim (Bool-cases (ltb start p.output_cursor)) [
          | inl cut ↦
              rw (wanted, cut)
                (keep_audio-Inv _ _ _
                  (same-Inv p p.enhanced _ p.remote_generation p.transport_state i i.ordered))
          | inr whole ↦ rw (wanted, whole) (keep_audio-Inv start pcm p i)
        ]
      ]

pub overflowed-Inv : (p : Processor) → Inv p → Inv (overflowed p)
unfolding overflowed
overflowed-Inv p i = same-Inv p [] _ p.remote_generation p.transport_state i tt

pub begin_close-Inv : (p : Processor) → Inv p → Inv (begin_close p)
unfolding begin_close
begin_close-Inv p i = elim (Bool-cases p.closed) [
  | inl c ↦ subst Inv (ground (arith, c)) i
  | inr c ↦ rw c (record {
    behind = i.behind;
    ordered = i.ordered;
    at_rest = i.at_rest;
    holds = λ x e. absurd cc;
  })
]

pub end_close-Inv : (p : Processor) → p.closed ≡ true → Inv p → Inv (end_close p)
unfolding end_close
end_close-Inv p c i = record {
  behind = i.behind;
  ordered = tt;
  at_rest = i.at_rest;
  holds = λ x e. absurd cc;
}
