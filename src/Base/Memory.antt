-- ===== src/Base/Memory.antt =====
-- Blocks of memory as lists of bytes: what memcpy and memset write and read, and storage that is cut
-- into slots of equal size, as the containers lay out their elements.
use Prim.Native.Nat.{ℕ, zero, suc, ◌+◌, ◌-◌, ◌*◌, ◌≤◌, ◌<◌, min}
use mathlib.Core.Path.{◌≡◌, refl, ap}
use mathlib.Core.Logic.{◌≢◌, ◌⊎◌, inl, inr}
use mathlib.Core.Bool.{◌&&◌}
use mathlib.Core.List.{List, [], ◌∷◌, ◌++◌}
use native.Mathlib.Omega.{arith}
use coter.Base.Tests.{ltb, leb, if◌then◌else◌, lt-total}
use coter.Base.Lists.{
  length, get_or, take, drop, length-take, length-drop, get_or-take, get_or-drop, list_ext,
}

abbrev pub Bytes : Type 0
Bytes = List ℕ

-- `memcpy(dst, b + off, n)`: the `n` bytes that are read
abbrev pub slice : Bytes → ℕ → ℕ → Bytes
slice b off n = take n (drop off b)

-- `memcpy(b + off, src, length src)`: the block after the write, which the calls make inside the block. By
-- itself this definition does not show that: bytes past the end of the block are left out.
unfoldable pub splice : Bytes → ℕ → Bytes → Bytes
splice [] off src = []
splice (x ∷ b) zero [] = x ∷ b
splice (x ∷ b) zero (s ∷ src) = s ∷ splice b zero src
splice (x ∷ b) (suc off) src = x ∷ splice b off src

pub length-splice : (b : Bytes) (off : ℕ) (src : Bytes) → length (splice b off src) ≡ length b
unfolding splice
length-splice [] off src = refl
length-splice (x ∷ b) zero [] = refl
length-splice (x ∷ b) zero (s ∷ src) = ap suc (length-splice b zero src)
length-splice (x ∷ b) (suc off) src = ap suc (length-splice b off src)

pub splice-nil : (b : Bytes) (off : ℕ) → splice b off [] ≡ b
unfolding splice
splice-nil [] off = refl
splice-nil (x ∷ b) zero = refl
splice-nil (x ∷ b) (suc off) = ap (◌∷◌ x) (splice-nil b off)

-- Behind what was written the block is as it was.
pub drop-splice :
    (b : Bytes) (off : ℕ) (src : Bytes) (k : ℕ)
    → off + length src ≤ k
    → drop k (splice b off src) ≡ drop k b
unfolding splice
drop-splice [] off src k h = refl
drop-splice (x ∷ b) zero [] k h = refl
drop-splice (x ∷ b) zero (s ∷ src) zero h = absurd (omega arith)
drop-splice (x ∷ b) zero (s ∷ src) (suc k) h = drop-splice b zero src k (omega arith)
drop-splice (x ∷ b) (suc off) src zero h = absurd (omega arith)
drop-splice (x ∷ b) (suc off) src (suc k) h = drop-splice b off src k (omega arith)

pub take-splice :
    (b : Bytes) (off : ℕ) (src : Bytes) (n : ℕ)
    → n ≡ off + length src
    → n ≤ length b
    → take n (splice b off src) ≡ take off b ++ src
unfolding splice
take-splice b zero [] zero e h = refl
take-splice [] off src (suc n) e h = absurd (omega arith)
take-splice (x ∷ b) zero [] (suc n) e h = absurd (omega arith)
take-splice (x ∷ b) zero (s ∷ src) (suc n) e h =
    ap (◌∷◌ s) (take-splice b zero src n (omega arith) (omega arith))
take-splice (x ∷ b) (suc off) src (suc n) e h =
    ap (◌∷◌ x) (take-splice b off src n (omega arith) (omega arith))
take-splice b (suc off) src zero e h = absurd (omega arith)
take-splice b zero (x ∷ src) zero e h = absurd (omega arith)

pub get_or-splice :
    (b : Bytes) (off : ℕ) (src : Bytes) (i : ℕ)
    → off + length src ≤ length b
    → get_or (splice b off src) i 0
      ≡ (if leb off i && ltb i (off + length src) then get_or src (i - off) 0 else get_or b i 0)
unfolding splice
get_or-splice [] off src i h = ground arith
get_or-splice (x ∷ b) zero [] i h = ground arith
get_or-splice (x ∷ b) zero (s ∷ src) zero h = ground arith
get_or-splice (x ∷ b) zero (s ∷ src) (suc i) h = ground (arith, get_or-splice b zero src i)
get_or-splice (x ∷ b) (suc off) src zero h = ground arith
get_or-splice (x ∷ b) (suc off) src (suc i) h = ground (arith, get_or-splice b off src i)

pub length-slice : (b : Bytes) (off n : ℕ) → length (slice b off n) ≡ min n (length b - off)
length-slice b off n = omega (arith, length-take n (drop off b), length-drop off b)

pub get_or-slice :
    (b : Bytes) (off n i : ℕ) → i < n → get_or (slice b off n) i 0 ≡ get_or b (off + i) 0
get_or-slice b off n i h = rw (get_or-take n (drop off b) i 0 h) (get_or-drop off b i 0)

-- What was written is read back.
pub slice-splice_self :
    (b : Bytes) (off : ℕ) (src : Bytes) (n : ℕ)
    → n ≡ length src
    → off + length src ≤ length b
    → slice (splice b off src) off n ≡ src
slice-splice_self b off src n e h =
    list_ext _ _ 0 (omega (arith, length-slice (splice b off src) off n, length-splice b off src))
      λ i p. ground (
        arith,
        length-slice (splice b off src) off n,
        get_or-slice (splice b off src) off n i,
        get_or-splice b off src (off + i),
        ap (λ k. get_or src k 0) (let f : off + i - off ≡ i = omega arith in f),
      )

-- A read apart from the write sees the old bytes.
pub slice-splice_ne :
    (b : Bytes) (off : ℕ) (src : Bytes) (k n : ℕ)
    → off + length src ≤ length b
    → (k + n ≤ off) ⊎ (off + length src ≤ k)
    → slice (splice b off src) k n ≡ slice b k n
slice-splice_ne b off src k n h apart =
    list_ext _ _ 0
      (omega
        (arith, length-slice (splice b off src) k n, length-slice b k n, length-splice b off src))
      λ i p. ground (
        arith,
        length-slice (splice b off src) k n,
        get_or-slice (splice b off src) k n i,
        get_or-slice b k n i,
        get_or-splice b off src (k + i),
      )

-- Slot `i` of storage whose slots have `w` bytes.
abbrev pub slot : ℕ → Bytes → ℕ → Bytes
slot w b i = slice b (i * w) w

pub set_slot : ℕ → Bytes → ℕ → Bytes → Bytes
set_slot w b i x = splice b (i * w) x

slot_in : (w i n : ℕ) → i < n → i * w + w ≤ n * w
slot_in w i n h = grind arith

slots_apart : (w i j : ℕ) → i ≢ j → (j * w + w ≤ i * w) ⊎ (i * w + w ≤ j * w)
slots_apart w i j h = elim (lt-total i j) [
  | inl p ↦ inr (slot_in w i j p)
  | inr p ↦ inl (slot_in w j i (omega arith))
]

pub length-set_slot : (w : ℕ) (b : Bytes) (i : ℕ) (x : Bytes) → length (set_slot w b i x) ≡ length b
unfolding set_slot
length-set_slot w b i x = length-splice b (i * w) x

module _ (w : ℕ) (b : Bytes) (n : ℕ) (room : n * w ≤ length b) where
  pub length-slot : (i : ℕ) → i < n → length (slot w b i) ≡ w
  length-slot i h = omega (arith, length-slice b (i * w) w, slot_in w i n h)

  pub slot-set_slot_self :
      (i : ℕ) (x : Bytes) → i < n → length x ≡ w → slot w (set_slot w b i x) i ≡ x
  unfolding set_slot
  slot-set_slot_self i x h e =
      slice-splice_self b (i * w) x w (omega arith) (omega (arith, slot_in w i n h))

  pub slot-set_slot_ne :
      (i j : ℕ) (x : Bytes)
      → i < n
      → length x ≡ w
      → i ≢ j
      → slot w (set_slot w b i x) j ≡ slot w b j
  unfolding set_slot
  slot-set_slot_ne i j x h e ne =
      slice-splice_ne b (i * w) x (j * w) w (omega (arith, slot_in w i n h))
        (elim (slots_apart w i j ne) [ inl p ↦ inl p | inr p ↦ inr (omega arith) ])
