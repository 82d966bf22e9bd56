-- ===== src/Container/Array/Growth.antt =====
-- Well-formed arrays, and what a call that makes room keeps.
use coter.Base.{
  ℕ, suc, ◌+◌, ◌*◌, ◌/◌, ◌≤◌, ◌<◌, ◌≡◌, ◌⊎◌, inl, inr, refl, arith, Bool, true, false, Option, none,
  some, Bytes, leb, ltb, ◌==◌, if_intro, length, take,
}
use coter.Container.Array.{Array, block, memory_max, round_up, regrow, reserve}

pub record IsValid (a : Array) : Type 0 where
  pub sized : 0 < a.byte
  pub size_in : a.size ≤ a.cap
  pub storage : a.cap * a.byte ≤ length (block a.ptr)
  pub limit : a.cap * a.byte ≤ memory_max

-- the bytes of the elements, in order
abbrev pub bytes : Array → Bytes
bytes a = take (a.size * a.byte) (block a.ptr)

pub mul_le : (a b w : ℕ) → a ≤ b → a * w ≤ b * w
mul_le a b w h = grind arith

pub mul_suc : (a w : ℕ) → suc a * w ≡ a * w + w
mul_suc a w = grind arith

le_div : (m n w : ℕ) → 0 < w → n ≤ m / w → n * w ≤ m
le_div m n w p h = grind arith

-- What realloc does to a block: it has the new size, and keeps what both sizes hold.
abbrev pub KeepsBytes : (Option Bytes → ℕ → Option Bytes) → Type 0
KeepsBytes realloc =
    (p : Option Bytes) (n k : ℕ) (b : Bytes)
    → realloc p n ≡ some b
    → k ≤ n
    → k ≤ length (block p)
    → (length b ≡ n) × (take k b ≡ take k (block p))

module _ (realloc : Option Bytes → ℕ → Option Bytes) (keeps : KeepsBytes realloc) where
  -- What a call that may move the block keeps.
  pub record Grown (a : Array) (r : Bool × Array) : Type 0 where
    pub valid : IsValid r.1
    pub bytes_same : bytes r.1 ≡ bytes a
    pub size_same : r.1.size ≡ a.size
    pub byte_same : r.1.byte ≡ a.byte

  pub regrow_lem :
      (a : Array) (target : ℕ) (o : Option Bytes)
      → IsValid a
      → a.size ≤ target
      → target * a.byte ≤ memory_max
      → realloc a.ptr (a.byte * target) ≡ o
      → Grown a (regrow realloc a target o)
  regrow_lem a target none v h m e = record {
    valid = v;
    bytes_same = refl;
    size_same = refl;
    byte_same = refl;
  }
  regrow_lem a target (some b) v h m e =
      let w = a.byte in
      let fits = mul_le a.size target w h in
      let held = mul_le a.size a.cap w v.size_in in
      let comm : w * target ≡ target * w = grind arith in
      let (len, same) =
        keeps a.ptr (w * target) (a.size * w) b e (omega arith) (omega (arith, v.storage)) in
      record {
        valid = record { sized = v.sized; size_in = h; storage = omega arith; limit = m };
        bytes_same = same;
        size_same = refl;
        byte_same = refl;
      }

  -- A reserve that succeeds has made room for so many elements, and one that fails changes nothing.
  unfoldable pub Reserved : Array → ℕ → Bool × Array → Type 0
  Reserved a n r = Grown a r × ((r ≡ (false, a)) ⊎ ((r.0 ≡ true) × (n ≤ r.1.cap)))

  regrow-Reserved :
      (a : Array) (n target : ℕ) (o : Option Bytes)
      → n ≤ target
      → Grown a (regrow realloc a target o)
      → Reserved a n (regrow realloc a target o)
  unfolding Reserved
  regrow-Reserved a n target none h g = (g, inl refl)
  regrow-Reserved a n target (some b) h g = (g, inr (refl, h))

  pub has_room : (a : Array) (n : ℕ) → IsValid a → n ≤ a.cap → Reserved a n (true, a)
  unfolding Reserved
  has_room a n v h =
      (record { valid = v; bytes_same = refl; size_same = refl; byte_same = refl }, inr (refl, h))

  pub reserve-Reserved : (a : Array) (n : ℕ) → IsValid a → Reserved a n (reserve realloc a n)
  unfolding reserve Reserved
  reserve-Reserved a n v =
      let same : Grown a (true, a) = record {
        valid = v;
        bytes_same = refl;
        size_same = refl;
        byte_same = refl;
      } in
      let failed : Reserved a n (false, a) =
        (record { valid = v; bytes_same = refl; size_same = refl; byte_same = refl }, inl refl) in
      let target = round_up n in
      if_intro (Reserved a n) (a.byte == 0) _ _ (λ _. failed)
        λ _.
          if_intro (Reserved a n) (leb n a.cap) _ _ (λ e. (same, inr (refl, ground arith)))
            λ e.
              if_intro (Reserved a n) (ltb (memory_max / a.byte) n) _ _ (λ _. failed)
                λ _.
                  if_intro (Reserved a n) (ltb target n) _ _ (λ _. failed)
                    λ f.
                      if_intro (Reserved a n) (ltb (memory_max / a.byte) target) _ _ (λ _. failed)
                        λ g.
                          let enough : n ≤ target = ground arith in
                          let small = le_div memory_max target a.byte v.sized (ground arith) in
                          let size_in = v.size_in in
                          regrow-Reserved a n target (realloc a.ptr (a.byte * target)) enough (
                            regrow_lem a target (realloc a.ptr (a.byte * target)) v (ground arith)
                              small refl)
