-- ===== src/Base/Exceptions.antt =====
-- Python's exceptions, with their messages, as values.
use Prim.Native.String.{String}
use mathlib.Core.Logic.{◌⊎◌, inl, inr}
use mathlib.Core.Path.{◌≡◌, refl}

-- `no_fuel` is the model's own: a loop on fuel that used it up. No source raises it.
pub data Exn : Type 0 where
  value_error : String → Exn
  key_error : String → Exn
  buffer_error : String → Exn
  runtime_error : String → Exn
  index_error : Exn
  os_error : Exn
  no_fuel : Exn

pub data Result {ℓ} (A : Type ℓ) : Type ℓ where
  raise : Exn → Result A
  ok : A → Result A

infixl 5 ◌>>=◌
abbrev pub ◌>>=◌ {ℓ κ} :
    {Before : Type ℓ} {After : Type κ} → Result Before → (Before → Result After) → Result After
raise exception >>= continue = raise exception
ok value >>= continue = continue value

-- The value of a successful bind comes from a successful first part.
pub >>=-eq-ok {ℓ κ} :
    {Before : Type ℓ} {After : Type κ} (first : Result Before) (continue : Before → Result After)
    {y : After}
    → (first >>= continue) ≡ ok y
    → (x : Before) × (first ≡ ok x) × (continue x ≡ ok y)
>>=-eq-ok (raise exception) continue e = cc
>>=-eq-ok (ok x) continue e = (x, refl, e)

pub Result-cases {ℓ} :
    {A : Type ℓ} (r : Result A) → ((a : A) × (r ≡ ok a)) ⊎ ((x : Exn) × (r ≡ raise x))
Result-cases (ok a) = inl (a, refl)
Result-cases (raise x) = inr (x, refl)
