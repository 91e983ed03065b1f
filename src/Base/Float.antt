-- ===== src/Base/Float.antt =====
-- Floats as far as comparisons see them. Every float but NaN has a place in the order of the floats, and
-- every finite one is a whole multiple of the least positive one: `number` holds that multiple, and for an
-- infinity one beyond those of all finite floats. NaN compares false with everything.
use Prim.Native.Nat.{ℕ, ◌<◌}
use mathlib.Core.Path.{◌≡◌, refl}
use mathlib.Core.Logic.{◌↔◌, ◌⊎◌, inl}
use mathlib.Core.Bool.{Bool, true, false, not}
use native.Mathlib.Omega.{arith}
use vox_lattice.Base.Int.{ℤ, pos, negsuc}
use vox_lattice.Base.Tests.{leb}

pub data Float : Type 0 where
  nan : Float
  number : ℤ → Float

abbrev int_leb : ℤ → ℤ → Bool
int_leb (pos a) (pos b) = leb a b
int_leb (pos a) (negsuc b) = false
int_leb (negsuc a) (pos b) = true
int_leb (negsuc a) (negsuc b) = leb b a

-- `x <= y`
unfoldable pub float_leb : Float → Float → Bool
float_leb nan y = false
float_leb (number a) nan = false
float_leb (number a) (number b) = int_leb a b

-- `x < y`
unfoldable pub float_ltb : Float → Float → Bool
float_ltb nan y = false
float_ltb (number a) nan = false
float_ltb (number a) (number b) = not (int_leb b a)

abbrev pub zero_float : Float
zero_float = number (pos 0)

abbrev pub Positive : Float → Type 0
Positive x = (n : ℕ) × (x ≡ number (pos n)) × (0 < n)

abbrev pub NotNegative : Float → Type 0
NotNegative x = (n : ℕ) × (x ≡ number (pos n))

pub float_leb_zero_iff : (x : Float) → (float_leb x zero_float ≡ false) ↔ ((x ≡ nan) ⊎ Positive x)
unfolding float_leb
float_leb_zero_iff nan = ((λ e. inl refl), (λ h. refl))
float_leb_zero_iff (number (pos n)) = ground arith
float_leb_zero_iff (number (negsuc n)) = ground arith

pub float_ltb_zero_iff :
    (x : Float) → (float_ltb x zero_float ≡ false) ↔ ((x ≡ nan) ⊎ NotNegative x)
unfolding float_ltb
float_ltb_zero_iff nan = ((λ e. inl refl), (λ h. refl))
float_ltb_zero_iff (number (pos n)) = ground arith
float_ltb_zero_iff (number (negsuc n)) = ground arith
