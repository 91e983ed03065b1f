-- ===== src/Plugin/Transport/Text.antt =====
-- transport.py, `truncate_utf8`. A text is a list of characters; the first bytes of its encoding, decoded
-- without what is incomplete at their end, are its first characters as long as they fit.
use Prim.Native.Char.{len_utf8}
use Prim.Native.String.{String, len}
use Prim.Native.String.len
use Prim.Native.String.append
use mathlib.Core.Path.{subst}
use vox_lattice.Base.{
  ℕ, ◌-◌, ◌≤◌, ◌<◌, ◌≡◌, ap, ◌∙◌, ◌<>◌, leb, if◌then◌else◌, arith, Bool-cases, inl, inr,
}

unfoldable pub truncate_utf8 : String → ℕ → String
truncate_utf8 String.[] n = String.[]
truncate_utf8 (String.◌∷◌ c s) n =
    let rest = truncate_utf8 s (n - len_utf8 c) in
    if leb (len_utf8 c) n then String.◌∷◌ c rest else String.[]

-- What is left over starts with a character that does not fit.
abbrev pub Overflows : ℕ → String → Type 0
Overflows room String.[] = Unit
Overflows room (String.◌∷◌ c rest) = room < len_utf8 c

-- The result is a beginning of the text, in whole characters, of at most `n` bytes, and the next
-- character would not fit.
pub truncate_utf8_lem :
    (s : String) (n : ℕ)
    → (len (truncate_utf8 s n) ≤ n)
      × ((rest : String) × (truncate_utf8 s n <> rest ≡ s)
          × Overflows (n - len (truncate_utf8 s n)) rest)
unfolding truncate_utf8
truncate_utf8_lem String.[] n = (omega (arith, len.nil), (String.[], append.nil String.[], tt))
truncate_utf8_lem (String.◌∷◌ c s) n = elim (Bool-cases (leb (len_utf8 c) n)) [
  | inl fits ↦
      let (short, (rest, whole, over)) = truncate_utf8_lem s (n - len_utf8 c) in
      let size = len.cons c (truncate_utf8 s (n - len_utf8 c)) in
      let room : n - len_utf8 c - len (truncate_utf8 s (n - len_utf8 c))
          ≡ n - len (String.◌∷◌ c (truncate_utf8 s (n - len_utf8 c))) =
        omega (arith, size) in
      rw fits (
        ground (arith, size, short),
        (
          rest,
          append.cons c (truncate_utf8 s (n - len_utf8 c)) rest ∙ ap (String.◌∷◌ c) whole,
          subst (λ r. Overflows r rest) room over,
        ),
      )
  | inr large ↦ rw large (
    omega (arith, len.nil),
    (String.◌∷◌ c s, append.nil (String.◌∷◌ c s), ground (arith, len.nil)),
  )
]
