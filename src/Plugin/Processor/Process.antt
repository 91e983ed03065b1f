-- ===== src/Plugin/Processor/Process.antt =====
-- `_process` as a whole, from its first check to the frame that it returns.
use vox_lattice.Base.{
  ℕ, ◌+◌, ◌-◌, ◌*◌, ◌≤◌, max, ◌≡◌, refl, ◌∙◌, Bool, true, false, List, ok, if◌then◌else◌, arith,
  length,
}
use vox_lattice.Plugin.Processor.{
  Processor, AudioFrame, to_send, sample_rate_hz, algorithmic_delay_samples, admit, overflowed,
  process,
}
use vox_lattice.Plugin.Processor.Effects.{Inv, append-Holds, emit_lem}
use vox_lattice.Plugin.Processor.Kept.{overflowed-Inv}

-- A frame that passes the checks of `_process`.
pub record Accepted (frame : AudioFrame) (p : Processor) : Type 0 where
  pub rate : frame.sample_rate ≡ sample_rate_hz
  pub mono : frame.num_channels ≡ 1
  pub size : length frame.data_bytes ≡ frame.samples_per_channel * 2
  pub fits : frame.samples_per_channel ≤ p.max_buffer_samples

-- An enabled processor takes the frame: the input cursor moves on, the raw timeline grows.
pub admit_enabled :
    (frame : AudioFrame) (p : Processor)
    → Inv p
    → p.closed ≡ false
    → p.enabled ≡ true
    → Accepted frame p
    → (q : Processor) × (admit frame p ≡ ok (q, to_send p.input_cursor))
      × Inv q
      × (q.closed ≡ false)
      × (q.enhanced ≡ p.enhanced)
      × (q.input_cursor ≡ p.input_cursor + frame.samples_per_channel)
      × (q.output_cursor ≡ p.output_cursor)
      × (q.response_wait_samples ≡ p.response_wait_samples)
unfolding admit
admit_enabled frame p i open_ on a =
    let (raw, appended, holds) =
      append-Holds p.output_cursor p.input_cursor p.raw frame.data_bytes frame.samples_per_channel
        (i.holds open_ on) a.size in
    (
      record p {
        input_cursor = p.input_cursor + frame.samples_per_channel;
        raw = raw;
        metrics = record p.metrics {
          frames_in = p.metrics.frames_in + 1;
          samples_in = p.metrics.samples_in + frame.samples_per_channel;
        };
      },
      ground (arith, open_, on, a.rate, a.mono, a.size, a.fits, appended),
      record {
        behind = omega (arith, i.behind);
        ordered = i.ordered;
        at_rest = λ e. absurd cc;
        holds = λ c e. holds;
      },
      open_,
      refl,
      refl,
      refl,
      refl,
    )

-- The worker takes the audio, or its queue is full.
after_send :
    (accepted : Bool) (q : Processor)
    → Inv q
    → (r : Processor) × (r ≡ (if accepted then q else overflowed q))
      × Inv r
      × (r.closed ≡ q.closed)
      × (r.input_cursor ≡ q.input_cursor)
      × (r.output_cursor ≡ q.output_cursor)
      × (r.response_wait_samples ≡ q.response_wait_samples)
unfolding overflowed
after_send true q i = (q, refl, i, refl, refl, refl, refl)
after_send false q i = (overflowed q, refl, overflowed-Inv q i, refl, refl, refl, refl)

-- On an open, enabled processor that satisfies the invariant and is at most the model delay
-- and the response budget behind its input, a frame that passes the checks gives a frame,
-- whether or not the worker took the audio: the output has two bytes for each sample that the
-- output cursor moves on, the input cursor moves on by the frame, the output cursor is then
-- exactly the delay and the budget behind the input unless it was ahead of that already, and
-- the invariant holds.
pub process_lem :
    (accepted : Bool) (frame : AudioFrame) (p : Processor)
    → Inv p
    → p.closed ≡ false
    → p.enabled ≡ true
    → Accepted frame p
    → p.input_cursor ≤ p.output_cursor + (algorithmic_delay_samples + p.response_wait_samples)
    → (q : Processor) × (out : List ℕ) × (process accepted frame p ≡ ok (q, out))
      × Inv q
      × (p.output_cursor * 2 + length out ≡ q.output_cursor * 2)
      × (q.input_cursor ≡ p.input_cursor + frame.samples_per_channel)
      × (q.output_cursor
          ≡ max p.output_cursor
              (q.input_cursor - (algorithmic_delay_samples + p.response_wait_samples)))
unfolding process
process_lem accepted frame p i open_ on a lag =
    let (q, admitted, j, open', _, input, output, wait) = admit_enabled frame p i open_ on a in
    let (r, same, k, closed, in', out', wait') = after_send accepted q j in
    let (s, out, emitted, l, moved, kept, size, _) =
      emit_lem frame.samples_per_channel r k (closed ∙ open') in
    (
      s,
      out,
      rw (admitted, ← same) emitted,
      l,
      omega (arith, moved, size, out', output),
      kept ∙ in' ∙ input,
      omega (arith, moved, kept, in', out', wait', input, output, wait, lag, i.behind),
    )
