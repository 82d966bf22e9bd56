-- ===== src/Container/Array.antt =====
-- container/src/array.c and container/src/vector.c: an array of fixed-size elements that grows.
pub mod Shift
pub mod Growth
pub mod Laws
use coter.Base.{
  ℕ, suc, ◌+◌, ◌-◌, ◌*◌, ◌/◌, ◌^◌, ◌++◌, Bool, true, false, Option, none, some, [], ℤ, pos,
  minus_one, bit_or, Bytes, slice, splice, take, replicate, leb, ltb, ◌==◌, if◌then◌else◌, add_size,
  sub_size, shr,
}

-- `ct_array_t`; a null pointer is `none`.
pub record Array : Type 0 where
  pub ptr : Option Bytes
  pub byte : ℕ
  pub cap : ℕ
  pub size : ℕ

-- the bytes behind the pointer
abbrev pub block : Option Bytes → Bytes
block none = []
block (some b) = b

-- `CT_VEC_MEMORY_MAX`
abbrev pub memory_max : ℕ
memory_max = 0x80000000

-- The next power of two, by or-ing shifted copies of the number below; SIZE_MAX has 64 bits.
unfoldable pub round_up : ℕ → ℕ
round_up n =
    let a = sub_size n 1 in
    let b = bit_or a (shr a 1) in
    let c = bit_or b (shr b 2) in
    let d = bit_or c (shr c 4) in
    let e = bit_or d (shr d 8) in
    let f = bit_or e (shr e 16) in let g = bit_or f (shr f 32) in add_size g 1

-- The bytes that go in: those of the item, or zeros for a null pointer.
abbrev pub filling : ℕ → Option Bytes → Bytes
filling byte none = replicate byte 0
filling byte (some item) = take byte item

abbrev pub shift_up : Array → ℕ → Bytes
shift_up self idx =
    let b = block self.ptr in
    if ltb idx self.size
    then splice b ((idx + 1) * self.byte)
        (slice b (idx * self.byte) ((self.size - idx) * self.byte))
    else b

-- realloc is an argument: the block of the new size, or `none`. The products of sizes stay below
-- `memory_max`, which the tests see to.
module _ (realloc : Option Bytes → ℕ → Option Bytes) where
  abbrev pub regrow : Array → ℕ → Option Bytes → Bool × Array
  regrow self target none = (false, self)
  regrow self target (some b) = (true, record self { ptr = some b; cap = target })

  -- `ct_vector_impl_reserve`
  unfoldable pub reserve : Array → ℕ → Bool × Array
  reserve self new_cap =
      let target = round_up new_cap in
      if self.byte == 0
      then (false, self)
      else if leb new_cap self.cap
      then (true, self)
      else if ltb (memory_max / self.byte) new_cap
      then (false, self)
      else if ltb target new_cap
      then (false, self)
      else if ltb (memory_max / self.byte) target
      then (false, self)
      else regrow self target (realloc self.ptr (self.byte * target))

  -- `ct_array_init`
  unfoldable pub init : Array → ℕ → ℕ → ℤ × Array
  init self byte capacity =
      let started : Array = record { ptr = none; byte = byte; cap = 0; size = 0 } in
      let (done, grown) = reserve started capacity in
      if byte == 0
      then (minus_one, self)
      else if ltb 0 capacity
      then (if done then (pos 0, grown) else (minus_one, grown))
      else (pos 0, started)

  -- `ct_vector_impl_resize`: new elements are zeros.
  unfoldable pub resize : Array → ℕ → Bool × Array
  resize self new_size =
      let (done, grown) = if ltb self.cap new_size then reserve self new_size else (true, self) in
      if self.byte == 0
      then (false, self)
      else if done
      then (
        true,
        record grown {
          ptr =
              if ltb self.size new_size
              then some (
                  splice (block grown.ptr) (self.size * self.byte)
                    (replicate ((new_size - self.size) * self.byte) 0))
              else grown.ptr;
          size = new_size;
        },
      )
      else (false, grown)

  -- `ct_vector_impl_insert`
  unfoldable pub insert : Array → ℕ → Option Bytes → Bool × Array
  insert self idx item =
      let (done, grown) =
        if leb self.cap self.size then reserve self (self.size + 1) else (true, self) in
      if self.byte == 0
      then (false, self)
      else if ltb self.size idx
      then (false, self)
      else if done
      then (
        true,
        record grown {
          ptr = some (splice (shift_up grown idx) (idx * self.byte) (filling self.byte item));
          size = suc self.size;
        },
      )
      else (false, grown)

  -- `ct_array_push`
  unfoldable pub push : Array → Option Bytes → Bool × Array
  unfolding insert
  push self item = insert self self.size item

  -- `ct_vector_impl_shrink`
  unfoldable pub shrink : Array → Bool × Array
  shrink self =
      if self.byte == 0
      then (false, self)
      else if self.cap == self.size
      then (true, self)
      else if self.size == 0
      then (true, record self { ptr = none; cap = 0 })
      else regrow self self.size (realloc self.ptr (self.byte * self.size))

abbrev pub is_null : Option Bytes → Bool
is_null none = true
is_null (some _) = false

-- `ct_vector_impl_erase`
unfoldable pub erase : Array → ℕ → Bool × Array
erase self idx =
    let b = block self.ptr in
    if is_null self.ptr
    then (false, self)
    else if self.byte == 0
    then (false, self)
    else if leb self.size idx
    then (false, self)
    else (
      true,
      record self {
        ptr =
            if ltb idx (self.size - 1)
            then some (
                splice b (idx * self.byte)
                  (slice b ((idx + 1) * self.byte) ((self.size - idx - 1) * self.byte)))
            else self.ptr;
        size = self.size - 1;
      },
    )

unfoldable pub pop : Array → Bool × Array
pop self =
    if is_null self.ptr
    then (false, self)
    else if self.size == 0
    then (false, self)
    else (true, record self { size = self.size - 1 })

abbrev pub destroy : Array → Array
destroy self = record { ptr = none; byte = 0; cap = 0; size = 0 }

abbrev pub clear : Array → Array
clear self = record self { size = 0 }

abbrev pub is_empty : Array → Bool
is_empty self = self.size == 0

-- `ct_array_at` and `ct_array_value`: the offset that the pointer points to
unfoldable pub at : Array → ℕ → Option ℕ
at self idx =
    if is_null self.ptr then none else if leb self.size idx then none else some (idx * self.byte)

unfoldable pub front : Array → Option ℕ
front self = if is_null self.ptr then none else if self.size == 0 then none else some 0

unfoldable pub back : Array → Option ℕ
back self =
    if is_null self.ptr
    then none
    else if self.size == 0
    then none
    else some ((self.size - 1) * self.byte)
