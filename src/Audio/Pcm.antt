-- ===== src/Audio/Pcm.antt =====
-- audio.py, `pcm16le_to_float32` and `float32_to_pcm16le`. Single-precision arithmetic is torch's,
-- so it enters as an interface: the operations that the two functions call, with what is documented
-- of them on the values that 16-bit samples take (powers of two scale exactly, integers of at most
-- 24 bits are exact).
use vox_lattice.Base.{
  ℕ, ◌*◌, ◌/◌, ◌%◌, ◌<◌, ◌≡◌, refl, ap, ap₂, ◌∙◌, List, [], ◌∷◌, ◌||◌, not, map, Result, ok, raise,
  value_error, ◌==◌, if◌then◌else◌, arith, length, length-map,
}
use vox_lattice.Audio.Int16.{
  ℤ, IsInt16, AllInt16, AllBytes, frombytes, tobytes, frombytes-AllInt16, tobytes-frombytes,
  length-frombytes, length-tobytes,
}

pub record Float32 : Type 1 where
  pub Value : Type 0
  pub zero : Value
  -- an integer as a float, `x / 32768.0`, `x * 32768.0`
  pub of_int : ℤ → Value
  pub div_32768 : Value → Value
  pub mul_32768 : Value → Value
  -- `clamp(-1.0, 32767.0 / 32768.0)`, `round()`, `to(torch.int16)`
  pub clamp : Value → Value
  pub round : Value → Value
  pub to_int16 : Value → ℤ
  pub clamp_in_range : (n : ℤ) → IsInt16 n → clamp (div_32768 (of_int n)) ≡ div_32768 (of_int n)
  pub mul-div : (n : ℤ) → IsInt16 n → mul_32768 (div_32768 (of_int n)) ≡ of_int n
  pub round-of_int : (n : ℤ) → IsInt16 n → round (of_int n) ≡ of_int n
  pub to_int16-of_int : (n : ℤ) → IsInt16 n → to_int16 (of_int n) ≡ n
  pub to_int16-IsInt16 : (x : Value) → IsInt16 (to_int16 x)

module _ (f : Float32) where
  open f use {Value, of_int, div_32768, mul_32768, clamp, round, to_int16}

  unfoldable pub pcm16le_to_float32 : List ℕ → Result (List Value)
  pcm16le_to_float32 value =
      if length value == 0 || not (length value % 2 == 0)
      then raise (value_error "PCM-S16LE must contain a positive, even number of bytes")
      else ok (map (λ n. div_32768 (of_int n)) (frombytes value))

  -- one element of the tensor; the test of `ndim` is the type
  unfoldable pub quantize : Value → ℤ
  quantize x = to_int16 (round (mul_32768 (clamp x)))

  unfoldable pub float32_to_pcm16le : List Value → List ℕ
  float32_to_pcm16le value = tobytes (map quantize value)

  quantize_lem : (n : ℤ) → IsInt16 n → quantize (div_32768 (of_int n)) ≡ n
  unfolding quantize
  quantize_lem n h =
      cc (f.clamp_in_range n h, f.mul-div n h, f.round-of_int n h, f.to_int16-of_int n h)

  map-quantize :
      (ns : List ℤ) → AllInt16 ns → map quantize (map (λ n. div_32768 (of_int n)) ns) ≡ ns
  map-quantize [] h = refl
  map-quantize (n ∷ ns) h = ap₂ ◌∷◌ (quantize_lem n h.0) (map-quantize ns h.1)

  -- A positive, even number of bytes is accepted, and converting its samples to floats and
  -- back gives the same bytes.
  pub float32_to_pcm16le-pcm16le_to_float32 :
      (bs : List ℕ)
      → AllBytes bs
      → 0 < length bs
      → length bs % 2 ≡ 0
      → (xs : List Value) × (pcm16le_to_float32 bs ≡ ok xs) × (float32_to_pcm16le xs ≡ bs)
  unfolding pcm16le_to_float32 float32_to_pcm16le
  float32_to_pcm16le-pcm16le_to_float32 bs h pos even = (
    map (λ n. div_32768 (of_int n)) (frombytes bs),
    ground arith,
    ap tobytes (map-quantize (frombytes bs) (frombytes-AllInt16 bs h))
        ∙ tobytes-frombytes bs h even,
  )

  -- Two bytes for each sample.
  pub length-float32_to_pcm16le : (xs : List Value) → length (float32_to_pcm16le xs) ≡ length xs * 2
  unfolding float32_to_pcm16le
  length-float32_to_pcm16le xs =
      length-tobytes (map quantize xs) ∙ ap (λ n. n * 2) (length-map xs quantize)

  pub length-pcm16le_to_float32 :
      (bs : List ℕ) (xs : List Value)
      → pcm16le_to_float32 bs ≡ ok xs
      → (0 < length bs) × (length bs % 2 ≡ 0) × (length xs ≡ length bs / 2)
  unfolding pcm16le_to_float32
  length-pcm16le_to_float32 bs xs h =
      ground
        (arith, length-map (frombytes bs) (λ (n : ℤ). div_32768 (of_int n)), length-frombytes bs)
