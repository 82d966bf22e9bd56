-- ===== src/Container/Fifo.antt =====
-- What a client may expect of a bounded first-in first-out queue: a list of at most `cap` items,
-- the oldest first.
use coter.Base.{
  ℕ, List, [], ◌∷◌, ◌++◌, Option, none, some, Bool, true, false, length, ◌==◌, if◌then◌else◌,
}

module _ {ℓ} {A : Type ℓ} where
  unfoldable pub push : ℕ → List A → A → Bool × List A
  push cap q x = if length q == cap then (false, q) else (true, q ++ (x ∷ []))

  unfoldable pub pop : List A → Bool × Option A × List A
  pop [] = (false, none, [])
  pop (x ∷ q) = (true, some x, q)

  unfoldable pub peek : List A → Bool × Option A
  peek [] = (false, none)
  peek (x ∷ q) = (true, some x)
