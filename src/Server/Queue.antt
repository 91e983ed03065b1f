-- ===== src/Server/Queue.antt =====
-- Python's `asyncio.Queue`, as session.py, scheduler.py and service.py use it. A size of zero means
-- no bound. A `put` that has to wait is a `put_nowait` that is tried again later.
use vox_lattice.Base.{
  ℕ, ◌≤◌, ◌<◌, ◌≡◌, Bool, true, false, Option, none, some, List, [], ◌∷◌, ◌++◌, ◌&&◌, ltb, leb,
  if◌then◌else◌, arith, length, length-append,
}

pub record Queue (A : Type 0) : Type 0 where
  pub maxsize : ℕ
  pub items : List A

module _ {A : Type 0} where
  unfoldable pub empty : Queue A → Bool
  empty q = elim q.items [ [] ↦ true | _ ∷ _ ↦ false ]

  unfoldable pub full : Queue A → Bool
  full q = ltb 0 q.maxsize && leb q.maxsize (length q.items)

  -- `none` is `QueueFull`.
  unfoldable pub put_nowait : A → Queue A → Option (Queue A)
  unfolding full
  put_nowait a q = if full q then none else some (record q { items = q.items ++ a ∷ [] })

  -- `none` is `QueueEmpty`.
  unfoldable pub get_nowait : Queue A → Option (A × Queue A)
  get_nowait q = elim q.items [ [] ↦ none | a ∷ rest ↦ some (a, record q { items = rest }) ]

  -- Never more items than `maxsize`.
  abbrev pub IsBounded : Queue A → Type 0
  IsBounded q = 0 < q.maxsize → length q.items ≤ q.maxsize

  pub put_nowait-IsBounded :
      (a : A) (q q' : Queue A) → IsBounded q → put_nowait a q ≡ some q' → IsBounded q'
  unfolding put_nowait
  put_nowait-IsBounded a q q' h e p = ground (arith, h, length-append q.items (a ∷ []))

  pub put_nowait-eq-some :
      (a : A) (q q' : Queue A)
      → put_nowait a q ≡ some q'
      → q' ≡ record q { items = q.items ++ a ∷ [] }
  unfolding put_nowait
  put_nowait-eq-some a q q' e = ground arith

  -- An empty queue takes one item, whatever its size.
  pub put_nowait_empty :
      (a : A) (n : ℕ)
      → put_nowait a (record { maxsize = n; items = [] })
        ≡ some (record { maxsize = n; items = a ∷ [] })
  unfolding put_nowait
  put_nowait_empty a n = ground arith
