-- ===== src/Audio/Examples.antt =====
-- Tests of the conversions and the rechunker, on exact arithmetic.
use vox_lattice.Base.{◌≡◌, refl, Option, List, [], ◌∷◌, ltb, ok, if◌then◌else◌, arith, replicate}
use vox_lattice.Audio.Int16.{ℤ, pos, negsuc, IsInt16, of_bytes, frombytes}
use vox_lattice.Audio.Pcm.{
  Float32, pcm16le_to_float32, float32_to_pcm16le, float32_to_pcm16le-pcm16le_to_float32,
}
use vox_lattice.Audio.Rechunker.{SourceHop, PcmRechunker, append, flush_partial}
use vox_lattice.Audio.Rechunker.Calls.{Appended, Flushed, to_list, append_lem, flush_partial_lem}

pub saturate : ℤ → ℤ
saturate (pos n) = pos (if ltb n 32768 then n else 32767)
saturate (negsuc n) = negsuc (if ltb n 32768 then n else 32767)

pub saturate-IsInt16 : (x : ℤ) → IsInt16 (saturate x)
unfolding saturate
saturate-IsInt16 (pos n) = ground arith
saturate-IsInt16 (negsuc n) = ground arith

pub saturate_lem : (x : ℤ) → IsInt16 x → saturate x ≡ x
unfolding saturate
saturate_lem (pos n) h = ground arith
saturate_lem (negsuc n) h = ground arith

-- A sample is the integer that it stands for, in units of 1/32768.
abbrev pub exact : Float32
exact = record {
  Value = ℤ;
  zero = pos 0;
  of_int = λ n. n;
  div_32768 = λ x. x;
  mul_32768 = λ x. x;
  clamp = saturate;
  round = λ x. x;
  to_int16 = saturate;
  clamp_in_range = saturate_lem;
  mul-div = λ n h. refl;
  round-of_int = λ n h. refl;
  to_int16-of_int = saturate_lem;
  to_int16-IsInt16 = saturate-IsInt16;
}

float32_to_pcm16le-pcm16le_to_float32_example :
    (xs : List ℤ) × (pcm16le_to_float32 exact (44 ∷ 1 ∷ 255 ∷ 255 ∷ []) ≡ ok xs)
    × (float32_to_pcm16le exact xs ≡ 44 ∷ 1 ∷ 255 ∷ 255 ∷ [])
float32_to_pcm16le-pcm16le_to_float32_example =
    float32_to_pcm16le-pcm16le_to_float32 exact (44 ∷ 1 ∷ 255 ∷ 255 ∷ [])
      (omega arith, (omega arith, (omega arith, (omega arith, tt)))) (omega arith) refl

-- 255 samples wait, two arrive: one hop leaves and a sample stays.
abbrev nearly_full : PcmRechunker ℤ
nearly_full = record {
  parts = replicate 255 (pos 7) ∷ [];
  pending_samples = 255;
  next_sample = 1000;
  max_pending_samples = 256;
}

abbrev roomy : PcmRechunker ℤ
roomy = record nearly_full { max_pending_samples = 512 }

append_lem_example :
    (hops : List (SourceHop ℤ)) × (r : PcmRechunker ℤ) × (append exact (1 ∷ 0 ∷ 2 ∷ 0 ∷ []) roomy
      ≡ ok (hops, r))
    × Appended (pos 1 ∷ pos 2 ∷ []) roomy hops r
unfolding pcm16le_to_float32 frombytes of_bytes
append_lem_example =
    append_lem exact (1 ∷ 0 ∷ 2 ∷ 0 ∷ []) (pos 1 ∷ pos 2 ∷ []) roomy refl refl (omega arith)

flush_partial_lem_example :
    (o : Option (SourceHop ℤ)) × (r : PcmRechunker ℤ) × (flush_partial exact roomy ≡ ok (o, r))
    × Flushed roomy (to_list o) r
flush_partial_lem_example = flush_partial_lem exact roomy refl (omega arith)
