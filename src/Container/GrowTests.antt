-- ===== src/Container/GrowTests.antt =====
-- Concrete runs of the array, the priority queue and the intrusive list.
use coter.Base.{
  ◌*◌, none, ℕ, zero, suc, ◌+◌, ◌-◌, ◌≤◌, ◌<◌, ◌≡◌, ◌≢◌, ◌⊎◌, refl, sym, ap, ◌∙◌, arith, true,
  false, Option, some, [], ◌∷◌, ℤ, pos, minus_one, ltb, ◌==◌, Bytes, length, take, if◌then◌else◌,
}
use coter.Container.Array
use coter.Container.Array.{Array, block, filling, erase}
use coter.Container.Array.Growth.{IsValid, bytes, KeepsBytes}
use coter.Container.Array.Laws.{insert_lem, erase_lem}
use coter.Container.IntrusiveList.{Links, append, remove}
use coter.Container.IntrusiveList.Chain.{Ring}
use coter.Container.IntrusiveList.Laws.{remove-Ring, append-Ring}
use coter.Container.PriorityQueue.{PriorityQueue, push, pop}
use coter.Container.PriorityQueue.Up.{Ranked, IsHeap}
use coter.Container.PriorityQueue.Push.{KeepsItems, Pushed, heap_push}
use coter.Container.PriorityQueue.Down.{Popped, heap_pop}
use coter.Container.PriorityQueue.Stale.{pop_disorders}

-- a block of `n` bytes that starts with the given ones
abbrev grow : ℕ → Bytes → Bytes
grow zero b = []
grow (suc n) [] = 0 ∷ grow n []
grow (suc n) (x ∷ b) = x ∷ grow n b

length-grow : (n : ℕ) (b : Bytes) → length (grow n b) ≡ n
length-grow zero b = refl
length-grow (suc n) [] = ap suc (length-grow n [])
length-grow (suc n) (x ∷ b) = ap suc (length-grow n b)

take-grow : (n k : ℕ) (b : Bytes) → k ≤ n → k ≤ length b → take k (grow n b) ≡ take k b
take-grow n zero b h f = refl
take-grow zero (suc k) b h f = absurd (omega arith)
take-grow (suc n) (suc k) [] h f = absurd (omega arith)
take-grow (suc n) (suc k) (x ∷ b) h f = ap (◌∷◌ x) (take-grow n k b (omega arith) (omega arith))

abbrev moved_block : Option Bytes → ℕ → Option Bytes
moved_block p n = some (grow n (block p))

moved_block-KeepsBytes : KeepsBytes moved_block
moved_block-KeepsBytes p n k b e h f =
    let same : grow n (block p) ≡ b = ap block e in
    (
      ap length (sym same) ∙ length-grow n (block p),
      ap (take k) (sym same) ∙ take-grow n k (block p) h f,
    )

-- the two-byte elements 1 2 and 3 4
abbrev two_pairs : Array
two_pairs = record { ptr = some (1 ∷ 2 ∷ 3 ∷ 4 ∷ []); byte = 2; cap = 2; size = 2 }

two_pairs-IsValid : IsValid two_pairs
two_pairs-IsValid = record {
  sized = omega arith;
  size_in = omega arith;
  storage = omega arith;
  limit = omega arith;
}

insert_lem_example :
    let r = Array.insert moved_block two_pairs 1 (some (8 ∷ 9 ∷ [])) in
    let had = (Array.reserve moved_block two_pairs 3).0 in
    ((2 ≤ 2) × (had ≡ false) × (r ≡ (false, two_pairs)))
    ⊎ (((2 < 2) ⊎ (had ≡ true))
        × (r.0 ≡ true)
        × IsValid r.1
        × (r.1.size ≡ 3)
        × (bytes r.1 ≡ 1 ∷ 2 ∷ 8 ∷ 9 ∷ 3 ∷ 4 ∷ []))
insert_lem_example =
    insert_lem moved_block moved_block-KeepsBytes two_pairs 1 (some (8 ∷ 9 ∷ [])) two_pairs-IsValid
      (omega arith) (omega arith)

erase_lem_example :
    let r = erase two_pairs 0 in
    ((2 ≤ 0) × (r ≡ (false, two_pairs)))
    ⊎ ((0 < 2) × (r.0 ≡ true) × IsValid r.1 × (bytes r.1 ≡ 3 ∷ 4 ∷ []))
erase_lem_example = erase_lem two_pairs 0 two_pairs-IsValid

abbrev cmp : ℕ → ℕ → ℤ
cmp a b = if ltb a b then minus_one else if ltb b a then pos 1 else pos 0

abbrev same : ℕ → ℕ
same a = a

cmp-Ranked : Ranked cmp same
cmp-Ranked a b = ground arith

-- 1; 2 10 11 12; and below the 2: 3 4 5 20
abbrev tree : ℕ → ℕ
tree i =
    if i == 0
    then 1
    else if i == 1
    then 2
    else if ltb i 5
    then 8 + i
    else if ltb i 8
    then i - 2
    else 20

abbrev nine : PriorityQueue ℕ
nine = record { all = tree; item_size = 4; size = 9; cap = 9; is_dynamic = true }

nine-IsHeap : IsHeap same 9 tree
nine-IsHeap c p q = ground arith

-- elements of 50 where the block was not in use
abbrev realloc : (ℕ → ℕ) → ℕ → Option (ℕ → ℕ)
realloc all request = some (λ i. if ltb request ((i + 1) * 4) then 50 else all i)

realloc-KeepsItems : KeepsItems realloc nine
realloc-KeepsItems request next e i p q =
    let same : (if ltb request ((i + 1) * 4) then 50 else tree i) ≡ next i =
      ap (λ o. elim o [ none ↦ 0 | some all ↦ all i ]) e in
    ground arith

heap_push_example : Pushed cmp same cmp-Ranked nine 0 true (push cmp realloc nine 0)
heap_push_example =
    heap_push cmp same cmp-Ranked realloc nine 0 realloc-KeepsItems (omega arith) (omega arith)
      (omega arith) (omega arith) nine-IsHeap

heap_pop_example : Popped cmp same nine (pop cmp nine)
heap_pop_example = heap_pop cmp same nine (omega arith) (omega arith) nine-IsHeap

least_child : (j : ℕ) → 0 < j → j ≤ 4 → j < 8 → j ≢ 1 → tree 1 < tree j
least_child j p q r ne = ground arith

pop_disorders_example : (pop cmp nine).2.all 5 < (pop cmp nine).2.all 1
pop_disorders_example =
    pop_disorders cmp same cmp-Ranked nine nine-IsHeap (omega arith) (omega arith) 1 5 (omega arith)
      (omega arith) least_child (omega arith) (omega arith) (omega arith)

-- the nodes 3, 5 and 4 of the head 0
abbrev three_nodes : Links
three_nodes = record {
  prev = λ i.
      if i == 0 then 4 else if i == 3 then 0 else if i == 5 then 3 else if i == 4 then 5 else 9;
  next = λ i.
      if i == 0 then 3 else if i == 3 then 5 else if i == 5 then 4 else if i == 4 then 0 else 9;
}

three_nodes-Ring : Ring three_nodes 0 (3 ∷ 5 ∷ 4 ∷ [])
three_nodes-Ring = ground arith

remove-Ring_example : Ring (remove three_nodes 5) 0 (3 ∷ 4 ∷ [])
remove-Ring_example = remove-Ring three_nodes 0 5 (3 ∷ []) (4 ∷ []) three_nodes-Ring

append-Ring_example : Ring (append three_nodes 0 7) 0 (3 ∷ 5 ∷ 4 ∷ 7 ∷ [])
append-Ring_example = append-Ring three_nodes 0 7 (3 ∷ 5 ∷ 4 ∷ []) three_nodes-Ring (ground arith)
