-- ===== src/Sync/PubSub.antt =====
-- sync/src/pubsub.c: subscribers of typed events, under a read-write lock.
--
-- The array of subscribers is the list of its elements, as Container/Array reads it; whether it could
-- grow is an argument. A callback is known by its address.
pub mod Laws
use coter.Base.{
  ℕ, zero, suc, ◌+◌, Bool, true, false, Option, none, some, List, [], ◌∷◌, ◌++◌, ℤ, pos, minus_one,
  get_elem?, length, ◌==◌, ◌&&◌, if◌then◌else◌,
}

-- `pubsub_sub_t`
pub record Sub : Type 0 where
  pub kind : ℕ
  pub cb : ℕ
  pub user_data : ℕ

-- `ct_pubsub_init`
abbrev pub init : List Sub
init = []

-- A null callback is `none`.
unfoldable pub subscribe : List Sub → Bool → ℕ → Option ℕ → ℕ → ℤ × List Sub
subscribe subs grown kind none user_data = (minus_one, subs)
subscribe subs grown kind (some cb) user_data =
    if grown
    then (pos 0, subs ++ record { kind = kind; cb = cb; user_data = user_data } ∷ [])
    else (minus_one, subs)

-- `ct_array_erase` on the elements
abbrev pub remove_at : List Sub → ℕ → List Sub
remove_at [] i = []
remove_at (s ∷ subs) zero = subs
remove_at (s ∷ subs) (suc i) = s ∷ remove_at subs i

abbrev pub matches : ℕ → ℕ → Sub → Bool
matches kind cb s = s.kind == kind && s.cb == cb

-- The loop of ct_pubsub_unsubscribe from index `i` on, with fuel: after a removal `i` stays.
unfoldable pub remove_loop : ℕ → ℕ → ℕ → List Sub → ℕ → ℤ → ℤ × List Sub
remove_loop kind cb zero subs i ret = (ret, subs)
remove_loop kind cb (suc fuel) subs i ret = elim (get_elem? subs i) [
  | none ↦ (ret, subs)
  | some s ↦ elim (matches kind cb s) [
    | true ↦ remove_loop kind cb fuel (remove_at subs i) i (pos 0)
    | false ↦ remove_loop kind cb fuel subs (suc i) ret
  ]
]

unfoldable pub unsubscribe : List Sub → ℕ → Option ℕ → ℤ × List Sub
unfolding remove_loop
unsubscribe subs kind none = (minus_one, subs)
unsubscribe subs kind (some cb) = remove_loop kind cb (suc (length subs)) subs 0 minus_one

-- a call of a callback: the callback, and the context that it is given
pub record Delivery : Type 0 where
  pub cb : ℕ
  pub user_data : ℕ

-- The calls that ct_pubsub_publish makes, in order, each with the event's type and value.
unfoldable pub publish : List Sub → ℕ → List Delivery
publish [] kind = []
publish (s ∷ subs) kind =
    let rest = publish subs kind in
    if s.kind == kind then record { cb = s.cb; user_data = s.user_data } ∷ rest else rest
