-- ===== src/Server/Registry/Entries.antt =====
-- The entries of the dictionary: each ID at most once, and what a method does to a lookup.
use mathlib.Core.List.{lookup}
use mathlib.Core.Logic.{ite}
use vox_lattice.Base.{ℕ, ◌+◌, ◌≡◌, refl, Option, none, some, List, [], ◌∷◌, ◌++◌, arith, length}
use vox_lattice.Server.Registry.{delete}

module _ {K : Type 0} (dec : Discrete K) where
  -- The map with another entry for one ID.
  abbrev pub assign : K → Option ℕ → (K → Option ℕ) → K → Option ℕ
  assign k o held k' = ite {C = Option ℕ} (dec k' k) o (held k')

  -- No ID twice.
  abbrev pub Distinct : List (K × ℕ) → Type 0
  Distinct [] = Unit
  Distinct (e ∷ l) = (lookup dec e.0 l ≡ none) × Distinct l

  pub lookup-snoc :
      (k : K) (o : ℕ) (l : List (K × ℕ)) (k' : K)
      → lookup dec k l ≡ none
      → lookup dec k' (l ++ (k, o) ∷ []) ≡ assign k (some o) (λ i. lookup dec i l) k'
  unfolding lookup
  lookup-snoc k o [] k' h = refl
  lookup-snoc k o (e ∷ l) k' h = ground (arith, h, lookup-snoc k o l k')

  pub Distinct-snoc :
      (k : K) (o : ℕ) (l : List (K × ℕ))
      → lookup dec k l ≡ none
      → Distinct l
      → Distinct (l ++ (k, o) ∷ [])
  unfolding lookup
  Distinct-snoc k o [] h d = (refl, tt)
  Distinct-snoc k o (e ∷ l) h d =
      (ground (arith, h, d.0, lookup-snoc k o l e.0), Distinct-snoc k o l (ground (arith, h)) d.1)

  pub lookup-delete :
      (k : K) (l : List (K × ℕ)) (k' : K)
      → Distinct l
      → lookup dec k' (delete dec k l) ≡ assign k none (λ i. lookup dec i l) k'
  unfolding lookup delete
  lookup-delete k [] k' d = ground arith
  lookup-delete k (e ∷ l) k' d = ground (arith, d.0, lookup-delete k l k' d.1)

  lookup-delete_of_none :
      (k k' : K) (l : List (K × ℕ)) → lookup dec k' l ≡ none → lookup dec k' (delete dec k l) ≡ none
  unfolding lookup delete
  lookup-delete_of_none k k' [] h = refl
  lookup-delete_of_none k k' (e ∷ l) h = ground (arith, h, lookup-delete_of_none k k' l)

  pub Distinct-delete : (k : K) (l : List (K × ℕ)) → Distinct l → Distinct (delete dec k l)
  unfolding delete
  Distinct-delete k [] d = tt
  Distinct-delete k (e ∷ l) d =
      elim (dec k e.0) as (λ x. Distinct (elim x [ yes _ ↦ l | no _ ↦ e ∷ delete dec k l ])) [
        | yes _ ↦ d.1
        | no _ ↦ (lookup-delete_of_none k e.0 l d.0, Distinct-delete k l d.1)
      ]

  pub length-delete :
      (k : K) (o : ℕ) (l : List (K × ℕ))
      → lookup dec k l ≡ some o
      → length (delete dec k l) + 1 ≡ length l
  unfolding lookup delete
  length-delete k o [] h = absurd (cc)
  length-delete k o (e ∷ l) h = ground (arith, h, length-delete k o l)
