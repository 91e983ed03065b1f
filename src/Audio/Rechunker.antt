-- ===== src/Audio/Rechunker.antt =====
-- audio.py, `SourceHop` and `PCMRechunker`: received samples are kept in parts, and leave in hops
-- of exactly 256. A tensor of one dimension is the list of its elements.
pub mod Hops
pub mod Drain
pub mod Calls
use vox_lattice.Base.{
  ℕ, zero, suc, ◌+◌, ◌-◌, ◌/◌, min, true, false, Option, none, some, List, [], ◌∷◌, ◌++◌, Result,
  ok, raise, value_error, buffer_error, runtime_error, index_error, no_fuel, ◌>>=◌, ltb, leb, ◌==◌,
  if◌then◌else◌, length, take, drop, replicate,
}
use vox_lattice.Audio.Pcm.{Float32, pcm16le_to_float32}

abbrev pub sample_rate_hz : ℕ
sample_rate_hz = 16000

abbrev pub hop_samples : ℕ
hop_samples = 256

pub record SourceHop (S : Type 0) : Type 0 where
  pub start_sample : ℕ
  pub samples : List S
  pub valid_samples : ℕ

pub record PcmRechunker (S : Type 0) : Type 0 where
  pub parts : List (List S)
  pub pending_samples : ℕ
  pub next_sample : ℕ
  pub max_pending_samples : ℕ

-- `__init__`
unfoldable pub init : {S : Type 0} → ℕ → ℕ → Result (PcmRechunker S)
init start_sample max_pending_samples =
    if ltb max_pending_samples hop_samples
    then raise (value_error "max_pending_samples must hold at least one hop")
    else ok (record {
      parts = [];
      pending_samples = 0;
      next_sample = start_sample;
      max_pending_samples = max_pending_samples;
    })

-- The loop of `_take`, over the samples still wanted and the parts. A part that is longer than what
-- is wanted fills the output, and the loop's test then ends it.
unfoldable pub take_loop : {S : Type 0} → ℕ → List (List S) → Result (List S × List (List S))
take_loop zero parts = ok ([], parts)
take_loop (suc wanted) [] = raise index_error
take_loop (suc wanted) (part ∷ parts) =
    let count = min (suc wanted) (length part) in
    let others = do
      (output, rest) ← take_loop (suc wanted - count) parts
      ok (take count part ++ output, rest)
    in if count == length part then others else ok (take count part, drop count part ∷ parts)

unfoldable pub take_samples : {S : Type 0} → ℕ → PcmRechunker S → Result (List S × PcmRechunker S)
unfolding take_loop
take_samples count r = do
  (output, rest) ← take_loop count r.parts
  ok (output, record r { parts = rest; pending_samples = r.pending_samples - count })

-- `_drain_full_hops`, on fuel.
unfoldable pub drain_full_hops :
    {S : Type 0} → ℕ → PcmRechunker S → Result (List (SourceHop S) × PcmRechunker S)
unfolding take_samples
drain_full_hops {S} zero r = raise no_fuel
drain_full_hops {S} (suc fuel) r = elim (leb hop_samples r.pending_samples) [
  | true ↦ do
    (samples, r') ← take_samples hop_samples r
    let hop : SourceHop S = record {
      start_sample = r.next_sample;
      samples = samples;
      valid_samples = hop_samples;
    }
    (hops, r'') ← drain_full_hops fuel (record r' { next_sample = r'.next_sample + hop_samples })
    ok (hop ∷ hops, r'')
  | false ↦ ok ([], r)
]

module _ (f : Float32) where
  open f use {Value}

  -- A round of the loop takes 256 samples away, so this fuel outlasts it.
  unfoldable pub append :
      List ℕ → PcmRechunker Value → Result (List (SourceHop Value) × PcmRechunker Value)
  unfolding drain_full_hops
  append pcm_s16le r = do
    incoming ← pcm16le_to_float32 f pcm_s16le
    if ltb r.max_pending_samples (r.pending_samples + length incoming)
        then raise (buffer_error "per-stream input audio buffer is full")
        else drain_full_hops (suc (r.pending_samples + length incoming)) (record r {
          parts = r.parts ++ incoming ∷ [];
          pending_samples = r.pending_samples + length incoming;
        })

  -- Copying more than 256 samples into the zeroed hop would be torch's error.
  unfoldable pub flush_partial :
      PcmRechunker Value → Result (Option (SourceHop Value) × PcmRechunker Value)
  unfolding take_samples
  flush_partial r = if r.pending_samples == 0 then ok (none, r) else do
    let valid = r.pending_samples
    (samples, r') ← take_samples valid r
    if ltb hop_samples valid
        then raise (runtime_error "shape mismatch")
        else ok (
          some (record {
            start_sample = r'.next_sample;
            samples = samples ++ replicate (hop_samples - valid) f.zero;
            valid_samples = valid;
          }),
          record r' { next_sample = r'.next_sample + valid },
        )
