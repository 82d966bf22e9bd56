-- ===== src/Container/PriorityQueue.antt =====
-- container/src/pqueue.c: a priority queue as a heap in which every node has up to four children.
--
-- The storage is a function from the element's index. The code finds an element at its index times the
-- size of an element, in uint32_t: the definitions that go over the elements stand for it while the
-- storage has less than 2 ^ 32 bytes, which the theorems ask for. The request of realloc wraps as in
-- the code. The allocation of `tmp`, which the code does not test, is taken to succeed. A loop has as
-- much fuel as the index that it climbs from, or as there are elements; it writes the element where the
-- fuel ends.
pub mod Items
pub mod Up
pub mod Push
pub mod Down
pub mod Stale
use coter.Base.{
  ℕ, zero, suc, ◌+◌, ◌-◌, ◌*◌, ◌/◌, ◌%◌, ◌^◌, Bool, true, false, not, Option, none, some, ℤ, pos,
  negsuc, leb, ltb, ◌==◌, if◌then◌else◌,
}

-- the tests `z < 0` and `z > 0`
abbrev pub is_negative : ℤ → Bool
is_negative (pos _) = false
is_negative (negsuc _) = true

abbrev pub is_positive : ℤ → Bool
is_positive (pos zero) = false
is_positive (pos (suc _)) = true
is_positive (negsuc _) = false

-- a write to the storage
abbrev pub update {ℓ} : {A : Type ℓ} → (ℕ → A) → ℕ → A → ℕ → A
update all i v j = if j == i then v else all j

abbrev pub parent : ℕ → ℕ
parent idx = (idx - 1) / 4

-- `uint32_t child`
abbrev pub child : ℕ → ℕ → ℕ
child idx i = (4 * idx + i) % 2 ^ 32

-- `ct_pqueue_t`
pub record PriorityQueue {ℓ} (A : Type ℓ) : Type ℓ where
  pub all : ℕ → A
  pub item_size : ℕ
  pub size : ℕ
  pub cap : ℕ
  pub is_dynamic : Bool

module _ {ℓ} {A : Type ℓ} where
  -- `CT_PQUEUE_INIT_FIELDS`, for storage of the caller or for storage that grows from nothing
  abbrev pub init : ℕ → (ℕ → A) → ℕ → Bool → PriorityQueue A
  init type_size storage capacity dynamic_flag = record {
    all = storage;
    item_size = (type_size + 3) / 4 * 4 % 2 ^ 10;
    cap = capacity;
    size = 0;
    is_dynamic = dynamic_flag;
  }

  -- realloc is an argument: the block of so many bytes, or `none`.
  abbrev pub regrow : PriorityQueue A → ℕ → Option (ℕ → A) → Bool × PriorityQueue A
  regrow self new_cap none = (false, self)
  regrow self new_cap (some next) = (true, record self { all = next; cap = new_cap })

  unfoldable pub reserve :
      ((ℕ → A) → ℕ → Option (ℕ → A)) → PriorityQueue A → ℕ → Bool × PriorityQueue A
  reserve realloc self new_cap =
      if self.is_dynamic
      then (if leb new_cap self.cap
          then (true, self)
          else regrow self new_cap (realloc self.all ((new_cap * self.item_size) % 2 ^ 32)))
      else (false, self)

  -- the capacity that a push to a full queue asks for
  abbrev pub next_cap : PriorityQueue A → ℕ
  next_cap self = if self.cap == 0 then 8 else (self.cap * 2) % 2 ^ 32

  unfoldable pub clear : PriorityQueue A → PriorityQueue A
  clear self = record self { size = 0 }

  unfoldable pub destroy : PriorityQueue A → PriorityQueue A
  destroy self = record self { size = 0; cap = 0 }

  unfoldable pub top : PriorityQueue A → Option A
  top self = if self.size == 0 then none else some (self.all 0)

module _ {ℓ} {A : Type ℓ} (cmp : A → A → ℤ) where
  -- The loop of `pqueue_sift_up`, which carries `tmp` up from `idx`.
  unfoldable pub sift_up : ℕ → (ℕ → A) → ℕ → A → ℕ → A
  sift_up zero all idx tmp = update all idx tmp
  sift_up (suc fuel) all idx tmp =
      let above = parent idx in
      let rest = sift_up fuel (update all idx (all above)) above tmp in
      if idx == 0
      then update all idx tmp
      else if not (is_negative (cmp tmp (all above)))
      then update all idx tmp
      else rest

  -- one round of the loop over the children
  abbrev pub better : (ℕ → A) → ℕ → ℕ → ℕ → ℕ
  better all size child smallest =
      if leb size child
      then smallest
      else if is_negative (cmp (all child) (all smallest))
      then child
      else smallest

  unfoldable pub pick : (ℕ → A) → ℕ → ℕ → ℕ
  pick all size idx = better all size (child idx 4) (
      better all size (child idx 3)
        (better all size (child idx 2) (better all size (child idx 1) idx)))

  -- The loop of `pqueue_sift_down`, which carries `tmp` down from `idx`.
  unfoldable pub sift_down : ℕ → (ℕ → A) → ℕ → ℕ → A → ℕ → A
  sift_down zero all size idx tmp = update all idx tmp
  sift_down (suc fuel) all size idx tmp =
      let smallest = pick all size idx in
      let rest = sift_down fuel (update all idx (all smallest)) size smallest tmp in
      if smallest == idx
      then update all idx tmp
      else if not (is_positive (cmp tmp (all smallest)))
      then update all idx tmp
      else rest

  unfoldable pub push_in : PriorityQueue A → A → PriorityQueue A
  push_in self item =
      let stored = update self.all self.size item in
      record self {
        all = sift_up self.size stored self.size (stored self.size);
        size = suc self.size;
      }

  unfoldable pub push :
      ((ℕ → A) → ℕ → Option (ℕ → A)) → PriorityQueue A → A → Bool × PriorityQueue A
  push realloc self item =
      let (done, grown) = reserve realloc self (next_cap self) in
      if self.size == self.cap
      then (if done then (true, push_in grown item) else (false, grown))
      else (true, push_in self item)

  unfoldable pub pop : PriorityQueue A → Bool × Option A × PriorityQueue A
  pop self =
      let size = self.size - 1 in
      let moved = update self.all 0 (self.all size) in
      if self.size == 0 then (false, none, self) else (
        true,
        some (self.all 0),
        record self {
          all = if ltb 0 size then sift_down size moved size 0 (moved 0) else self.all;
          size = size;
        },
      )
