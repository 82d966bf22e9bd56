-- ===== src/Container/Stack.antt =====
-- container/src/stack.c and the macros of stack.h: a last-in first-out array of elements of `byte`
-- bytes in storage that the caller provides, and the proof that it is one.
use native.Mathlib.Decide.{ℕ_discrete}
use coter.Base.{
  ℕ, suc, ◌-◌, ◌*◌, ◌≤◌, ◌<◌, ◌≡◌, ◌≢◌, ap, ap₂, ◌∙◌, List, [], ◌∷◌, Option, none, some, Bool, true,
  false, not, ◌⊎◌, inl, inr, ℤ, pos, minus_one, arith, length, take, length-take, Bytes, slot,
  set_slot, length-set_slot, slot-set_slot_self, slot-set_slot_ne, tabulate, tabulate_ext, ◌==◌,
  if◌then◌else◌, add_size, size_mod,
}

-- `ct_stack_t`
pub record Stack : Type 0 where
  pub all : Bytes
  pub byte : ℕ
  pub max : ℕ
  pub size : ℕ

abbrev pub is_empty : Stack → Bool
is_empty s = s.size == 0

abbrev pub is_full : Stack → Bool
is_full s = s.size == s.max

abbrev pub clear : Stack → Stack
clear s = record s { size = 0 }

pub init : Stack → Bytes → ℕ → ℕ → ℤ × Stack
init s buffer byte max =
    if byte == 0
    then (minus_one, s)
    else (pos 0, clear (record s { all = buffer; byte = byte; max = max }))

-- The item is what the pointer points to; `byte` bytes of it are copied.
pub push : Stack → Bytes → Bool × Stack
push s item = if is_full s then (false, s) else (
  true,
  record s { all = set_slot s.byte s.all s.size (take s.byte item); size = add_size s.size 1 },
)

-- `item` says whether the destination is not null; what is written there comes back.
pub pop : Stack → Bool → Bool × Option Bytes × Stack
pop s item = if is_empty s then (false, none, s) else (
  true,
  (if item then some (slot s.byte s.all (s.size - 1)) else none),
  record s { size = s.size - 1 },
)

pub top : Stack → Bool → Bool × Option Bytes
top s item =
    if is_empty s
    then (false, none)
    else (true, (if item then some (slot s.byte s.all (s.size - 1)) else none))

-- The storage holds `max` elements, of which `size` are in use.
pub record IsValid (s : Stack) : Type 0 where
  pub sized : 0 < s.byte
  pub storage : s.max * s.byte ≤ length s.all
  pub small : s.max < size_mod
  pub size_in : s.size ≤ s.max

-- the elements, the last pushed first
abbrev pub contents : Stack → List Bytes
contents s = tabulate s.size (λ i. slot s.byte s.all (s.size - suc i))

-- taking the first item off a list
unfoldable pub uncons : List Bytes → Bool × Option Bytes × List Bytes
uncons [] = (false, none, [])
uncons (x ∷ xs) = (true, some x, xs)

stored :
    (s : Stack) (x : Bytes)
    → IsValid s
    → length x ≡ s.byte
    → s.size ≢ s.max
    → tabulate
        (add_size s.size 1)
        (λ i. slot s.byte (set_slot s.byte s.all s.size x) (add_size s.size 1 - suc i))
      ≡ x ∷ contents s
stored s x v e h =
    let grown : add_size s.size 1 ≡ suc s.size = omega arith in
    let b = set_slot s.byte s.all s.size x in
    let first : slot s.byte b (suc s.size - 1) ≡ x =
      ap (slot s.byte b) (omega arith)
      ∙ slot-set_slot_self s.byte s.all s.max v.storage s.size x (omega arith) e in
    let others : tabulate s.size (λ i. slot s.byte b (suc s.size - suc (suc i))) ≡ contents s =
      tabulate_ext s.size _ _ λ i p.
        ap (slot s.byte b) (omega arith)
        ∙ slot-set_slot_ne s.byte s.all s.max v.storage s.size (s.size - suc i) x (omega arith) e
            (omega arith) in
    ap (λ n. tabulate n (λ i. slot s.byte b (n - suc i))) grown ∙ ap₂ ◌∷◌ first others

-- ct_stack_init with a size of at least one byte and storage for `max` elements gives a valid empty
-- stack and 0; with size 0 it answers -1 and leaves the struct as it was.
pub init_lem :
    (s : Stack) (buffer : Bytes) (byte max : ℕ)
    → max < size_mod
    → max * byte ≤ length buffer
    → ((0 < byte)
        × (let (rc, s') = init s buffer byte max in (rc ≡ pos 0) × IsValid s' × (contents s' ≡ [])))
      ⊎ ((byte ≡ 0) × (init s buffer byte max ≡ (minus_one, s)))
unfolding init
init_lem s buffer byte max k r = elim (ℕ_discrete byte 0) [
  | yes e ↦ inr (e, ground arith)
  | no ne ↦ inl (omega arith, ground arith)
]

-- ct_stack_push on a valid stack keeps it valid. When the stack is full it answers false and changes
-- nothing; otherwise it answers true and the first `byte` bytes of the item are on top of the others.
pub push_lem :
    (s : Stack) (item : Bytes)
    → IsValid s
    → s.byte ≤ length item
    → let (ok, s') = push s item in
      IsValid s'
      × (ok ≡ not (is_full s))
      × (contents s' ≡ (if is_full s then contents s else take s.byte item ∷ contents s))
unfolding push
push_lem s item v h = ground (
  arith,
  length-set_slot s.byte s.all s.size (take s.byte item),
  stored s (take s.byte item) v (omega (arith, length-take s.byte item)),
)

contents_of_ne_zero :
    (s : Stack)
    → s.size ≢ 0
    → contents s
      ≡ slot s.byte s.all (s.size - 1)
        ∷ tabulate (s.size - 1) (λ i. slot s.byte s.all (s.size - 1 - suc i))
contents_of_ne_zero s h =
    let e : s.size ≡ suc (s.size - 1) = omega arith in
    ap (λ n. tabulate n (λ i. slot s.byte s.all (s.size - suc i))) e
    ∙ ap (◌∷◌ (slot s.byte s.all (s.size - 1)))
        (tabulate_ext (s.size - 1) _ _ λ i p. ap (slot s.byte s.all) (omega arith))

-- ct_stack_pop on a valid stack keeps it valid, and answers and leaves what taking the first item off
-- the list of its elements does; the item goes to the destination, if there is one. ct_stack_top
-- answers and delivers the same, and takes nothing off.
pub pop_lem :
    (s : Stack) (item : Bool)
    → IsValid s
    → let (ok, out, s') = pop s item in
      let (some_left, x, rest) = uncons (contents s) in
      IsValid s'
      × (ok ≡ some_left)
      × (out ≡ (if item then x else none))
      × (contents s' ≡ rest)
      × (top s item ≡ (ok, out))
unfolding pop top uncons
pop_lem s item v = elim (ℕ_discrete s.size 0) [
  | yes e ↦ ground (arith, ap (λ n. tabulate n (λ i. slot s.byte s.all (s.size - suc i))) e)
  | no ne ↦ ground (arith, contents_of_ne_zero s ne)
]
