-- ===== src/Container/Array/Laws.antt =====
-- The operations of an array on the bytes of its elements.
use coter.Base.{
  ℕ, zero, suc, ◌+◌, ◌-◌, ◌*◌, ◌≤◌, ◌<◌, ◌≡◌, ◌⊎◌, inl, inr, refl, sym, ap, ap₂, subst, ◌∙◌, arith,
  lt-total, Bool, true, false, Option, none, some, [], ◌++◌, Bytes, leb, ltb, ◌==◌, if◌then◌else◌,
  if_intro, length, take, drop, slice, splice, length-take, length-splice, length-replicate,
  splice-nil,
}
use coter.Container.Array.{Array, block, is_null, reserve, filling, shift_up, insert, erase}
use coter.Container.Array.Shift.{gap-made, gap-closed}
use coter.Container.Array.Growth.{
  IsValid, bytes, mul_le, mul_suc, KeepsBytes, Reserved, has_room, reserve-Reserved,
}

mul_sub : (a b w : ℕ) → (a - b) * w ≡ a * w - b * w
mul_sub a b w = elim (lt-total b a) [
  | inl p ↦
      let e : a ≡ b + (a - b) = omega arith in
      let f : (b + (a - b)) * w ≡ b * w + (a - b) * w = grind arith in
      omega (arith, ap (λ k. k * w) e)
  | inr p ↦ let e : a - b ≡ 0 = omega arith in omega (arith, ap (λ k. k * w) e, mul_le a b w p)
]

slice-zero : (b : Bytes) (off n : ℕ) → n ≡ 0 → slice b off n ≡ []
slice-zero b off zero e = refl
slice-zero b off (suc n) e = absurd (omega arith)

length-filling :
    (w : ℕ) (item : Option Bytes) → w ≤ length (filling w item) → length (filling w item) ≡ w
length-filling w none h = length-replicate w 0
length-filling w (some x) h = omega (arith, length-take w x)

-- The two ways to write what moves up.
shift_up_lem :
    (a : Array) (idx : ℕ)
    → idx ≤ a.size
    → shift_up a idx
      ≡ splice
          (block a.ptr)
          (idx * a.byte + a.byte)
          (slice (block a.ptr) (idx * a.byte) (a.size * a.byte - idx * a.byte))
shift_up_lem a idx h =
    let b = block a.ptr in
    let w = a.byte in
    let up : (idx + 1) * w ≡ idx * w + w = grind arith in
    if_intro (λ r. r ≡ splice b (idx * w + w) (slice b (idx * w) (a.size * w - idx * w)))
      (ltb idx a.size) _ _
      (λ e. ap₂ (λ k n. splice b k (slice b (idx * w) n)) up (mul_sub a.size idx w))
      (λ e.
        let last : idx ≡ a.size = ground arith in
        let none_left : a.size * w - idx * w ≡ 0 = omega (arith, ap (λ k. k * w) last) in
        sym (splice-nil b (idx * w + w))
        ∙ ap (splice b (idx * w + w)) (sym (slice-zero b (idx * w) _ none_left)))

inserted :
    (g : Array) (idx : ℕ) (x : Bytes)
    → IsValid g
    → g.size < g.cap
    → idx ≤ g.size
    → length x ≡ g.byte
    → let g' : Array = record g {
      ptr = some (splice (shift_up g idx) (idx * g.byte) x);
      size = suc g.size;
    } in
      IsValid g'
      × (bytes g' ≡ take (idx * g.byte) (bytes g) ++ (x ++ drop (idx * g.byte) (bytes g)))
inserted g idx x v room h e =
    let w = g.byte in
    let b = block g.ptr in
    let n = g.size * w in
    let p = idx * w in
    let one_more : suc g.size * w ≡ n + w = mul_suc g.size w in
    let fits = mul_le (suc g.size) g.cap w room in
    let shifted = shift_up_lem g idx h in
    let sizes : length (splice (shift_up g idx) p x) ≡ length b =
      length-splice (shift_up g idx) p x
      ∙ ap length shifted
      ∙ length-splice b (p + w) (slice b p (n - p)) in
    (
      record {
        sized = v.sized;
        size_in = room;
        storage = omega (arith, sizes, v.storage);
        limit = v.limit;
      },
      ap (λ k. take k (splice (shift_up g idx) p x)) (one_more ∙ ap (λ k. n + k) (sym e))
          ∙ ap (λ s. take (n + length x) (splice s p x))
              (shifted ∙ ap (λ k. splice b (p + k) (slice b p (n - p))) (sym e))
          ∙ gap-made b x n p (mul_le idx g.size w h) (omega (arith, v.storage)),
    )

module _ (realloc : Option Bytes → ℕ → Option Bytes) (keeps : KeepsBytes realloc) where
  -- ct_array_insert into a valid array at an index up to the size, of an item of at least the elements'
  -- size or of a null pointer, whatever realloc gives. If the array is full and ct_array_reserve of one
  -- element more fails, it answers false and changes nothing. In every other case it answers true and
  -- puts one element (the item's bytes, or zeros) between the first `idx` elements and the others, and
  -- the array stays valid.
  pub insert_lem :
      (a : Array) (idx : ℕ) (item : Option Bytes)
      → IsValid a
      → idx ≤ a.size
      → a.byte ≤ length (filling a.byte item)
      → let r = insert realloc a idx item in
        ((a.cap ≤ a.size) × ((reserve realloc a (a.size + 1)).0 ≡ false) × (r ≡ (false, a)))
        ⊎ (((a.size < a.cap) ⊎ ((reserve realloc a (a.size + 1)).0 ≡ true))
            × (r.0 ≡ true)
            × IsValid r.1
            × (r.1.size ≡ suc a.size)
            × (bytes r.1
                ≡ take (idx * a.byte) (bytes a)
                  ++ (filling a.byte item ++ drop (idx * a.byte) (bytes a))))
  unfolding insert Reserved
  insert_lem a idx item v h k =
      if_intro Result (a.byte == 0) _ _ (λ e. absurd (zero_byte e))
        λ _.
          if_intro Result (ltb a.size idx) _ _ (λ e. absurd (ground arith))
            λ _.
              let made = if leb a.cap a.size then reserve realloc a (a.size + 1) else (true, a) in
              filled made
                (if_intro Caused (leb a.cap a.size) _ _ (λ e. tried (ground arith))
                  (λ e. inl (ground arith)))
                (if_intro (Reserved realloc keeps a (a.size + 1)) (leb a.cap a.size) _ _
                  (λ _. reserve-Reserved realloc keeps a (a.size + 1) v)
                  (λ e. has_room realloc keeps a (a.size + 1) v (ground arith)))
    where
      Result : Bool × Array → Type 0
      Result r =
          ((a.cap ≤ a.size) × ((reserve realloc a (a.size + 1)).0 ≡ false) × (r ≡ (false, a)))
          ⊎ (((a.size < a.cap) ⊎ ((reserve realloc a (a.size + 1)).0 ≡ true))
              × (r.0 ≡ true)
              × IsValid r.1
              × (r.1.size ≡ suc a.size)
              × (bytes r.1
                  ≡ take (idx * a.byte) (bytes a)
                    ++ (filling a.byte item ++ drop (idx * a.byte) (bytes a))))

      zero_byte : (a.byte == 0) ≡ true → ⊥
      zero_byte e = ground (arith, v.sized)

      -- why the storage is large enough, or is not
      Caused : Bool × Array → Type 0
      Caused (true, g) = (a.size < a.cap) ⊎ ((reserve realloc a (a.size + 1)).0 ≡ true)
      Caused (false, g) = (a.cap ≤ a.size) × ((reserve realloc a (a.size + 1)).0 ≡ false)

      by_answer :
          (b : Bool) (g : Array)
          → a.cap ≤ a.size
          → (reserve realloc a (a.size + 1)).0 ≡ b
          → Caused (b, g)
      by_answer true g full e = inr e
      by_answer false g full e = (full, e)

      tried : a.cap ≤ a.size → Caused (reserve realloc a (a.size + 1))
      tried full = let (b, g) = reserve realloc a (a.size + 1) in by_answer b g full refl

      filled :
          (r : Bool × Array)
          → Caused r
          → Reserved realloc keeps a (a.size + 1) r
          → Result (
              if r.0
              then (
                true,
                record r.1 {
                  ptr = some (splice (shift_up r.1 idx) (idx * a.byte) (filling a.byte item));
                  size = suc a.size;
                },
              )
              else (false, r.1))
      filled (false, g) (full, none_had) s = elim s.1 [
        | inl e ↦ inl (full, none_had, e)
        | inr e ↦ absurd (cc)
      ]
      filled (true, g) c s = elim s.1 [
        | inl e ↦ absurd (cc)
        | inr e ↦
            let grown = s.0 in
            let w_same = grown.byte_same in
            let x = filling a.byte item in
            let len : length x ≡ g.byte = length-filling a.byte item k ∙ sym w_same in
            let size = grown.size_same in
            let (valid, put) = inserted g idx x grown.valid (omega arith) (omega arith) len in
            let same_at : idx * g.byte ≡ idx * a.byte = ap (◌*◌ idx) w_same in
            let end : record g {
              ptr = some (splice (shift_up g idx) (idx * a.byte) x);
              size = suc a.size;
            }
                ≡ record g {
                  ptr = some (splice (shift_up g idx) (idx * g.byte) x);
                  size = suc g.size;
                } =
              ap₂ (λ p n. record g { ptr = some (splice (shift_up g idx) p x); size = suc n })
                (sym same_at) (sym size) in
            inr (
              c,
              refl,
              subst IsValid (sym end) valid,
              refl,
              ap bytes end
                  ∙ put
                  ∙ ap₂ (λ p bs. take p bs ++ (x ++ drop p bs)) same_at grown.bytes_same,
            )
      ]

null-length : (p : Option Bytes) → is_null p ≡ true → length (block p) ≡ 0
null-length none e = refl
null-length (some b) e = cc

closing_lem :
    (a : Array) (idx : ℕ)
    → idx < a.size
    → block (
        if ltb idx (a.size - 1)
        then some (
            splice
              (block a.ptr)
              (idx * a.byte)
              (slice (block a.ptr) ((idx + 1) * a.byte) ((a.size - idx - 1) * a.byte)))
        else a.ptr)
      ≡ splice
          (block a.ptr)
          (idx * a.byte)
          (slice (block a.ptr) (idx * a.byte + a.byte) (a.size * a.byte - idx * a.byte - a.byte))
closing_lem a idx h =
    let b = block a.ptr in
    let w = a.byte in
    let n = a.size * w in
    let p = idx * w in
    let up : (idx + 1) * w ≡ p + w = grind arith in
    let count : (a.size - idx - 1) * w ≡ n - p - w =
      omega (arith, mul_sub (a.size - idx) 1 w, mul_sub a.size idx w) in
    if_intro (λ o. block o ≡ splice b p (slice b (p + w) (n - p - w))) (ltb idx (a.size - 1)) _ _
      (λ e. ap₂ (λ k m. splice b p (slice b k m)) up count)
      (λ e.
        let last : a.size ≡ suc idx = ground arith in
        let none_left : n - p - w ≡ 0 = omega (arith, ap (λ k. k * w) last, mul_suc idx w) in
        sym (splice-nil b p) ∙ ap (splice b p) (sym (slice-zero b (p + w) _ none_left)))

-- ct_array_erase at an index below the size takes that element out, and the others stay in order; the
-- array stays valid. At any other index it answers false and changes nothing.
pub erase_lem :
    (a : Array) (idx : ℕ)
    → IsValid a
    → let r = erase a idx in
      ((a.size ≤ idx) × (r ≡ (false, a)))
      ⊎ ((idx < a.size)
          × (r.0 ≡ true)
          × IsValid r.1
          × (bytes r.1 ≡ take (idx * a.byte) (bytes a) ++ drop (idx * a.byte + a.byte) (bytes a)))
unfolding erase
erase_lem a idx v =
    if_intro Result (is_null a.ptr) _ _ (λ e. inl (absent e, refl))
      λ _.
        if_intro Result (a.byte == 0) _ _ (λ e. absurd (zero_byte e))
          λ _.
            if_intro Result (leb a.size idx) _ _ (λ e. inl (ground arith, refl))
              λ e.
                let inside : idx < a.size = ground arith in
                let (valid, rest) = closed inside in inr (inside, refl, valid, rest)
  where
    Result : Bool × Array → Type 0
    Result r =
        ((a.size ≤ idx) × (r ≡ (false, a)))
        ⊎ ((idx < a.size)
            × (r.0 ≡ true)
            × IsValid r.1
            × (bytes r.1 ≡ take (idx * a.byte) (bytes a) ++ drop (idx * a.byte + a.byte) (bytes a)))

    absent : is_null a.ptr ≡ true → a.size ≤ idx
    absent e =
        let no_bytes = null-length a.ptr e in
        let one = mul_le 1 a.cap a.byte in
        elim (lt-total 0 a.cap) [
          | inl p ↦ absurd (omega (arith, one p, v.storage, v.sized))
          | inr p ↦ omega (arith, v.size_in)
        ]

    zero_byte : (a.byte == 0) ≡ true → ⊥
    zero_byte e = ground (arith, v.sized)

    closed :
        idx < a.size
        → let r : Array = record a {
          ptr =
              if ltb idx (a.size - 1)
              then some (
                  splice
                    (block a.ptr)
                    (idx * a.byte)
                    (slice (block a.ptr) ((idx + 1) * a.byte) ((a.size - idx - 1) * a.byte)))
              else a.ptr;
          size = a.size - 1;
        } in
          IsValid r
          × (bytes r ≡ take (idx * a.byte) (bytes a) ++ drop (idx * a.byte + a.byte) (bytes a))
    closed h =
        let b = block a.ptr in
        let w = a.byte in
        let n = a.size * w in
        let p = idx * w in
        let same = closing_lem a idx h in
        let sizes = ap length same ∙ length-splice b p (slice b (p + w) (n - p - w)) in
        let fits = mul_le a.size a.cap w v.size_in in
        let inner = mul_le (suc idx) a.size w h in
        let next = mul_suc idx w in
        let fewer : (a.size - 1) * w ≡ n - w = omega (arith, mul_sub a.size 1 w) in
        (
          record {
            sized = v.sized;
            size_in = omega (arith, v.size_in);
            storage = omega (arith, sizes, v.storage);
            limit = v.limit;
          },
          ap₂ (λ k c. take k c) fewer same
              ∙ gap-closed b n p w (omega arith) (omega (arith, v.storage)),
        )
