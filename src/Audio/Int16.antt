-- ===== src/Audio/Int16.antt =====
-- The elements of Python's `array("h")`, and its bytes in little-endian order. On a big-endian host
-- audio.py swaps the bytes itself, so the order is the same everywhere.
use vox_lattice.Base.{
  ℕ, ◌+◌, ◌-◌, ◌*◌, ◌/◌, ◌%◌, ◌<◌, ◌≡◌, refl, ap, ap₂, List, [], ◌∷◌, ltb, if◌then◌else◌, arith,
  length,
}

-- Only the values from -32768 to 32767 occur; `negsuc n` is -(n + 1).
pub data ℤ : Type 0 where
  pos : ℕ → ℤ
  negsuc : ℕ → ℤ

abbrev pub IsInt16 : ℤ → Type 0
IsInt16 (pos n) = n < 32768
IsInt16 (negsuc n) = n < 32768

-- Two's complement of 16 bits.
unfoldable pub of_bytes : ℕ → ℕ → ℤ
of_bytes low high =
    let word = low + high * 256 in if ltb word 32768 then pos word else negsuc (65535 - word)

unfoldable pub word : ℤ → ℕ
word (pos n) = n
word (negsuc n) = 65535 - n

-- `array.frombytes`; a last odd byte is refused by the callers before.
unfoldable pub frombytes : List ℕ → List ℤ
frombytes (low ∷ high ∷ rest) = of_bytes low high ∷ frombytes rest
frombytes _ = []

-- `array.tobytes`
unfoldable pub tobytes : List ℤ → List ℕ
tobytes [] = []
tobytes (n ∷ ns) = word n % 256 ∷ word n / 256 ∷ tobytes ns

abbrev pub AllInt16 : List ℤ → Type 0
AllInt16 [] = Unit
AllInt16 (n ∷ ns) = IsInt16 n × AllInt16 ns

abbrev pub AllBytes : List ℕ → Type 0
AllBytes [] = Unit
AllBytes (b ∷ bs) = (b < 256) × AllBytes bs

pub of_bytes-IsInt16 : (low high : ℕ) → low < 256 → high < 256 → IsInt16 (of_bytes low high)
unfolding of_bytes
of_bytes-IsInt16 low high l h = ground arith

pub frombytes-AllInt16 : (bs : List ℕ) → AllBytes bs → AllInt16 (frombytes bs)
unfolding frombytes
frombytes-AllInt16 [] h = tt
frombytes-AllInt16 (a ∷ []) h = tt
frombytes-AllInt16 (a ∷ b ∷ bs) h = (of_bytes-IsInt16 a b h.0 h.1.0, frombytes-AllInt16 bs h.1.1)

word-of_bytes :
    (low high : ℕ) → low < 256 → high < 256 → word (of_bytes low high) ≡ low + high * 256
unfolding word of_bytes
word-of_bytes low high l h = ground arith

of_bytes-word : (n : ℤ) → IsInt16 n → of_bytes (word n % 256) (word n / 256) ≡ n
unfolding word of_bytes
of_bytes-word (pos n) h = ground arith
of_bytes-word (negsuc n) h = ground arith

-- A list of 16-bit integers written as bytes and read back is the same list.
pub frombytes-tobytes : (ns : List ℤ) → AllInt16 ns → frombytes (tobytes ns) ≡ ns
unfolding frombytes tobytes
frombytes-tobytes [] h = refl
frombytes-tobytes (n ∷ ns) h = ap₂ ◌∷◌ (of_bytes-word n h.0) (frombytes-tobytes ns h.1)

pub tobytes-frombytes :
    (bs : List ℕ) → AllBytes bs → length bs % 2 ≡ 0 → tobytes (frombytes bs) ≡ bs
unfolding frombytes tobytes
tobytes-frombytes [] h even = refl
tobytes-frombytes (a ∷ []) h even = absurd (omega arith)
tobytes-frombytes (a ∷ b ∷ bs) h even =
    let w = word-of_bytes a b h.0 h.1.0 in
    let l : word (of_bytes a b) % 256 ≡ a = omega arith in
    let u : word (of_bytes a b) / 256 ≡ b = omega arith in
    rw (l, u) (ap (λ t. a ∷ b ∷ t) (tobytes-frombytes bs h.1.1 (omega arith)))

pub length-frombytes : (bs : List ℕ) → length (frombytes bs) ≡ length bs / 2
unfolding frombytes
length-frombytes [] = omega arith
length-frombytes (a ∷ []) = omega arith
length-frombytes (a ∷ b ∷ bs) = omega (arith, length-frombytes bs)

pub length-tobytes : (ns : List ℤ) → length (tobytes ns) ≡ length ns * 2
unfolding tobytes
length-tobytes [] = omega arith
length-tobytes (n ∷ ns) = omega (arith, length-tobytes ns)
