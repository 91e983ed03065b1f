-- ===== src/Server/Caches/Slices.antt =====
-- One of several concatenated tensors, found again by a slice.
use vox_lattice.Base.{
  ℕ, suc, ◌+◌, ◌-◌, ◌*◌, ◌≤◌, ◌<◌, ◌≡◌, refl, sym, ap, ◌∙◌, String, List, [], ◌∷◌, ◌++◌, map,
  length, take, drop, arith, length-append, length-map, ap₂, take-append_of_le, take_of_length-le,
  drop-append_of_ge,
}
use vox_lattice.Server.Caches.{Axis, dim, shape_of, All, concat, Torch}

-- The k-th of lists of one length, found in their concatenation.
take-drop-concat {ℓ} :
    {A : Type ℓ} (k : ℕ) (before : List (List A)) (x : List A) (after : List (List A))
    → All (λ l. length l ≡ k) before
    → length x ≡ k
    → take k (drop (length before * k) (concat (before ++ x ∷ after))) ≡ x
take-drop-concat k [] x after h e =
    let none_before : 0 * k ≡ 0 = omega arith in
    ap (λ n. take k (drop n (x ++ concat after))) none_before
    ∙ take-append_of_le k x (concat after) (omega (arith, e))
    ∙ take_of_length-le k x (omega (arith, e))
take-drop-concat k (b ∷ before) x after h e =
    let rest : length b + length before * k - length b ≡ length before * k = omega arith in
    let place : suc (length before) * k ≡ length b + length before * k = grind (arith, h.0) in
    ap (take k) (
      ap (λ n. drop n (b ++ concat (before ++ x ∷ after))) place
      ∙ drop-append_of_ge (length b + length before * k) b (concat (before ++ x ∷ after))
          (omega arith)
      ∙ ap (λ n. drop n (concat (before ++ x ∷ after))) rest)
    ∙ take-drop-concat k before x after h.1 e

pub All-map {ℓ ι κ} :
    {A : Type ℓ} {B : Type ι} (P : B → Type κ) (f : A → B) (xs : List A)
    → All (λ x. P (f x)) xs
    → All P (map f xs)
All-map P f [] h = tt
All-map P f (x ∷ xs) h = (h.0, All-map P f xs h.1)

pub All-implies {ℓ ι κ} :
    {A : Type ℓ} (P : A → Type ι) (Q : A → Type κ) (xs : List A)
    → ((x : A) → P x → Q x)
    → All P xs
    → All Q xs
All-implies P Q [] i h = tt
All-implies P Q (x ∷ xs) i h = (i x h.0, All-implies P Q xs i h.1)

All-before {ℓ κ} : {A : Type ℓ} (P : A → Type κ) (xs ys : List A) → All P (xs ++ ys) → All P xs
All-before P [] ys h = tt
All-before P (x ∷ xs) ys h = (h.0, All-before P xs ys h.1)

All-at {ℓ κ} :
    {A : Type ℓ} (P : A → Type κ) (xs : List A) (y : A) (ys : List A) → All P (xs ++ y ∷ ys) → P y
All-at P [] y ys h = h.0
All-at P (x ∷ xs) y ys h = All-at P xs y ys h.1

map-append {ℓ κ} :
    {A : Type ℓ} {B : Type κ} (f : A → B) (xs ys : List A) → map f (xs ++ ys) ≡ map f xs ++ map f ys
map-append f [] ys = refl
map-append f (x ∷ xs) ys = ap (◌∷◌ (f x)) (map-append f xs ys)

module _ (torch : Torch) where
  open torch use {Tensor, shape, device_type, cat, narrow, slices}

  -- A tensor of `n` entries along the axis, on the device.
  abbrev pub Fits : Axis → ℕ → String → Tensor → Type 0
  Fits a n device t = (shape t ≡ shape_of a n) × (device_type t ≡ device)

  -- One of the tensors that were concatenated comes back.
  pub narrow-cat :
      {C : Type 0} (a : Axis) (k : ℕ) (device : String) (f : C → Tensor) (before : List C) (x : C)
      (after : List C)
      → 0 < k
      → All (λ c. Fits a k device (f c)) (before ++ x ∷ after)
      → narrow (dim a) (length before * k) k (cat (dim a) (map f (before ++ x ∷ after))) ≡ f x
  narrow-cat {C = C} a k device f before x after some_entries h =
      let bs = map (λ c. slices (dim a) (f c)) before in
      let ends = map (λ c. slices (dim a) (f c)) after in
      let found =
        take-drop-concat k bs (slices (dim a) (f x)) ends
          (All-map (λ l. length l ≡ k) (λ c. slices (dim a) (f c)) before
            (All-implies _ _ before (λ c e. torch.length-slices a k (f c) e.0)
              (All-before _ before (x ∷ after) h)))
          size in
      torch.same_slices (dim a) _ (f x)
        (torch.shape-narrow a _ (length before * k) k _ whole room ∙ sym at.0)
        (omega (arith, size, some_entries))
        (torch.slices-narrow (dim a) (length before * k) k _
          ∙ ap (λ l. take k (drop (length before * k) l))
              (torch.slices-cat a k device _ fits ∙ ap concat sliced)
          ∙ ap (λ n. take k (drop (n * k) (concat (bs ++ slices (dim a) (f x) ∷ ends))))
              (sym (length-map before _))
          ∙ found)
    where
      all : List C
      all = before ++ x ∷ after

      fits : All (Fits a k device) (map f all)
      fits = All-map (Fits a k device) f all h

      at : Fits a k device (f x)
      at = All-at _ before x after h

      size : length (slices (dim a) (f x)) ≡ k
      size = torch.length-slices a k (f x) at.0

      count : length (map f all) ≡ length before + suc (length after)
      count = length-map all f ∙ length-append before (x ∷ after)

      whole : shape (cat (dim a) (map f all)) ≡ shape_of a (length (map f all) * k)
      whole = torch.shape-cat a k device (map f all) (omega (arith, count)) fits

      room : length before * k + k ≤ length (map f all) * k
      room = rw count (grind arith)

      sliced :
          map (slices (dim a)) (map f all)
          ≡ map (λ c. slices (dim a) (f c)) before
            ++ slices (dim a) (f x) ∷ map (λ c. slices (dim a) (f c)) after
      sliced =
          ap (map (slices (dim a))) (map-append f before (x ∷ after))
          ∙ map-append (slices (dim a)) (map f before) (f x ∷ map f after)
          ∙ ap₂ (λ l r. l ++ slices (dim a) (f x) ∷ r) (map-map before) (map-map after)
        where
          map-map :
              (cs : List C) → map (slices (dim a)) (map f cs) ≡ map (λ c. slices (dim a) (f c)) cs
          map-map [] = refl
          map-map (c ∷ cs) = ap (◌∷◌ (slices (dim a) (f c))) (map-map cs)
