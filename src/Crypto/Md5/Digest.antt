-- ===== src/Crypto/Md5/Digest.antt =====
-- The digest of a message that came in pieces is that of the padded message.
use coter.Base.{
  ℕ, zero, suc, ◌+◌, ◌-◌, ◌*◌, ◌/◌, ◌%◌, ◌^◌, ◌≤◌, ◌<◌, ◌≡◌, refl, sym, ap, ap₂, subst, ◌∙◌, arith,
  Bool, List, [], ◌∷◌, ◌++◌, append-nil, append_assoc, Bytes, length, length-append,
  length-replicate, take, take-length, ltb, if◌then◌else◌, splice, length-splice, take-splice,
  Bool-cases, inl, inr,
}
use coter.Crypto.Md5.Rounds.{Registers, transform}
use coter.Crypto.Md5.{
  Context, start, init, filled, update, store_le32, zeros, pad, last_block, digest_of, finish,
}
use coter.Crypto.Blocks.{chain, filled_up, extended}
use coter.Crypto.Md5.Update.{Carries, init-Carries, update-Carries, waiting}

-- the zeros between the mark and the count of bits: up to 56 bytes into a block
abbrev pub gap_of : ℕ → ℕ
gap_of n = (119 - n % 64) % 64

-- the count of bits modulo 2 ^ 64, the lower word first
abbrev pub count_bytes : ℕ → Bytes
count_bytes n = store_le32 (8 * n % 2 ^ 64 % 2 ^ 32) ++ store_le32 (8 * n % 2 ^ 64 / 2 ^ 32)

abbrev pub tail_of : ℕ → Bytes
tail_of n = 128 ∷ (zeros (gap_of n) ++ count_bytes n)

abbrev pub padded : Bytes → Bytes
padded m = m ++ tail_of (length m)

-- the digest of a whole message
abbrev pub digest : Bytes → Bytes
digest m = digest_of (chain transform (length (padded m) / 64) start (padded m))

-- the block after ct_md5_final wrote the count of bits at its end
ended_block :
    (block head : Bytes) (low high : ℕ)
    → length block ≡ 64
    → length head ≡ 56
    → take 56 block ≡ head
    → splice (splice block 56 (store_le32 low)) 60 (store_le32 high)
      ≡ head ++ (store_le32 low ++ store_le32 high)
ended_block block head low high z h e =
    let b = splice block 56 (store_le32 low) in
    let start_of : take 60 b ≡ head ++ store_le32 low =
      take-splice block 56 (store_le32 low) 60 refl (omega arith)
      ∙ ap (λ (l : Bytes). l ++ store_le32 low) e in
    filled_up b 60 (head ++ store_le32 low) (store_le32 high)
      (omega (arith, length-splice block 56 (store_le32 low))) start_of refl
    ∙ append_assoc head (store_le32 low) (store_le32 high)

-- the registers and the block before the count of bits is written
record Marked (buf : Registers) (block m : Bytes) : Type 0 where
  count : ℕ
  whole : Bytes
  head : Bytes
  parts : whole ++ head ≡ m ++ 128 ∷ zeros (gap_of (length m))
  blocks : length whole ≡ 64 * count
  chained : buf ≡ chain transform count start whole
  begins : take 56 block ≡ head
  short : length head ≡ 56
  size : length block ≡ 64

-- the mark and so many zeros behind the bytes that wait
marked_with :
    (block rest : Bytes) (r left : ℕ)
    → length block ≡ 64
    → take r block ≡ rest
    → r + 1 + left ≤ 64
    → take (r + 1 + left) (splice (splice block r (128 ∷ [])) (r + 1) (zeros left))
      ≡ rest ++ 128 ∷ zeros left
marked_with block rest r left z e h =
    let marked = splice block r (128 ∷ []) in
    take-splice marked (r + 1) (zeros left) (r + 1 + left)
      (omega (arith, length-replicate {A = ℕ} left 0))
      (omega (arith, length-splice block r (128 ∷ [])))
    ∙ ap (λ (l : Bytes). l ++ zeros left)
        (take-splice block r (128 ∷ []) (r + 1) refl (omega arith)
          ∙ ap (λ (l : Bytes). l ++ 128 ∷ []) e)
    ∙ append_assoc rest (128 ∷ []) (zeros left)

zeros_add : (a b n : ℕ) → n ≡ a + b → zeros a ++ zeros b ≡ zeros n
zeros_add zero b n e = ap zeros (omega arith)
zeros_add (suc a) b zero e = absurd (omega arith)
zeros_add (suc a) b (suc n) e = ap (◌∷◌ 0) (zeros_add a b n (omega arith))

if_same : (b : Bool) (f : Context → ℕ) (x y : Context) → f x ≡ f y → f (if b then x else y) ≡ f y
if_same b f x y e = ground arith

gap_over : (n c r : ℕ) → n ≡ 64 * c + r → r < 64 → 63 - r < 8 → gap_of n ≡ 63 - r + 56
gap_over n c r e h k = omega arith

gap_within : (n c r : ℕ) → n ≡ 64 * c + r → r < 64 → 8 ≤ 63 - r → gap_of n ≡ 63 - r - 8
gap_within n c r e h k = omega arith

module _ (self : Context) (m : Bytes) (v : Carries self m) where
  abbrev r : ℕ
  r = length v.held.rest

  abbrev marked : Bytes
  marked = splice self.block r (128 ∷ [])

  abbrev full : Bytes
  full = splice marked (r + 1) (zeros (63 - r))

  split_size : length m ≡ 64 * v.held.count + r
  split_size =
      omega (arith, ap length v.held.parts, length-append v.held.whole v.held.rest, v.held.blocks)

  length-marked : length marked ≡ 64
  length-marked = length-splice self.block r (128 ∷ []) ∙ v.held.size

  -- behind the message
  behind : (tail : Bytes) → v.held.whole ++ (v.held.rest ++ tail) ≡ m ++ tail
  behind tail =
      sym (append_assoc v.held.whole v.held.rest tail) ∙ ap (λ (l : Bytes). l ++ tail) v.held.parts

  -- no room for the count of bits in this block
  over : 63 - r < 8 → Marked (transform self.buf full) (splice full 0 (zeros 56)) m
  over h =
      let left = 63 - r in
      let length-full : length full ≡ 64 =
        length-splice marked (r + 1) (zeros left) ∙ length-marked in
      let whole_block : full ≡ v.held.rest ++ 128 ∷ zeros left =
        sym (take-length 64 full (omega arith))
        ∙ ap (λ (n : ℕ). take n full) (let e : 64 ≡ r + 1 + left = omega (arith, v.held.short) in e)
        ∙ marked_with self.block v.held.rest r left v.held.size v.held.waits
            (omega (arith, v.held.short)) in
      let together : (v.held.whole ++ full) ++ zeros 56 ≡ m ++ 128 ∷ zeros (gap_of (length m)) =
        ap (λ (l : Bytes). (v.held.whole ++ l) ++ zeros 56) whole_block
        ∙ ap (λ (l : Bytes). l ++ zeros 56) (behind (128 ∷ zeros left))
        ∙ append_assoc m (128 ∷ zeros left) (zeros 56)
        ∙ ap (λ (l : Bytes). m ++ 128 ∷ l)
            (zeros_add left 56 (gap_of (length m))
              (gap_over (length m) v.held.count r split_size v.held.short h)) in
      record {
        count = suc v.held.count;
        whole = v.held.whole ++ full;
        head = zeros 56;
        parts = together;
        blocks = omega (arith, length-append v.held.whole full, v.held.blocks, length-full);
        chained =
            extended transform start self.buf full v.held.count v.held.whole v.held.blocks
              length-full v.held.chained;
        begins = take-splice full 0 (zeros 56) 56 refl (omega (arith, length-full));
        short = refl;
        size = length-splice full 0 (zeros 56) ∙ length-full;
      }

  within : 8 ≤ 63 - r → Marked self.buf (splice marked (r + 1) (zeros (63 - r - 8))) m
  within h =
      let left = 63 - r - 8 in
      record {
        count = v.held.count;
        whole = v.held.whole;
        head = v.held.rest ++ 128 ∷ zeros left;
        parts =
            behind (128 ∷ zeros left)
            ∙ ap (λ (n : ℕ). m ++ 128 ∷ zeros n)
                (sym (gap_within (length m) v.held.count r split_size v.held.short h));
        blocks = v.held.blocks;
        chained = v.held.chained;
        begins =
            ap (λ (n : ℕ). take n (splice marked (r + 1) (zeros left)))
              (let e : 56 ≡ r + 1 + left = omega arith in e)
            ∙ marked_with self.block v.held.rest r left v.held.size v.held.waits (omega arith);
        short =
            omega (
              arith,
              length-append v.held.rest (128 ∷ zeros left),
              length-replicate {A = ℕ} left 0,
            );
        size = length-splice marked (r + 1) (zeros left) ∙ length-marked;
      }

  pad-Marked : Marked (pad self).buf (pad self).block m
  pad-Marked = elim (Bool-cases (ltb (63 - r) 8)) [
    | inl e ↦ rw (waiting self m [] v, e) (over (ground arith))
    | inr e ↦ rw (waiting self m [] v, e) (within (ground arith))
  ]

  -- the count of bits is not changed before it is stored
  pad-low : (pad self).low ≡ self.low
  pad-low = if_same (ltb (63 - filled self.low) 8) (λ c. c.low) _ _ refl

  pad-high : (pad self).high ≡ self.high
  pad-high = if_same (ltb (63 - filled self.low) 8) (λ c. c.high) _ _ refl

  stored : store_le32 self.low ++ store_le32 self.high ≡ count_bytes (length m)
  stored =
      ap₂ (λ (l h : ℕ). store_le32 l ++ store_le32 h)
        (omega (arith, v.bits, v.low_small, v.high_small))
        (omega (arith, v.bits, v.low_small, v.high_small))

  pub finish-digest : (finish self).0 ≡ digest m
  unfolding finish
  finish-digest =
      let p = pad-Marked in
      let counted = count_bytes (length m) in
      let block = p.head ++ counted in
      let last : last_block (pad self) ≡ block =
        ended_block (pad self).block p.head (pad self).low (pad self).high p.size p.short p.begins
        ∙ ap (◌++◌ p.head)
            (ap₂ (λ (l h : ℕ). store_le32 l ++ store_le32 h) pad-low pad-high ∙ stored) in
      let message : p.whole ++ block ≡ padded m =
        sym (append_assoc p.whole p.head counted)
        ∙ ap (λ (l : Bytes). l ++ counted) p.parts
        ∙ append_assoc m (128 ∷ zeros (gap_of (length m))) counted in
      let block_size : length block ≡ 64 = omega (arith, length-append p.head counted, p.short) in
      let blocks : suc p.count ≡ length (padded m) / 64 =
        omega (arith, ap length message, length-append p.whole block, p.blocks, block_size) in
      ap digest_of (
        ap (transform (pad self).buf) last
        ∙ extended transform start (pad self).buf block p.count p.whole p.blocks block_size
            p.chained
        ∙ ap₂ (λ (n : ℕ) (l : Bytes). chain transform n start l) blocks message)

-- the context after the pieces of a message, one call of ct_md5_update for each
abbrev pub update_all : Context → List Bytes → Context
update_all self [] = self
update_all self (piece ∷ pieces) = update_all (update self piece) pieces

abbrev pub joined : List Bytes → Bytes
joined [] = []
joined (piece ∷ pieces) = piece ++ joined pieces

update_all-Carries :
    (self : Context) (m : Bytes) (pieces : List Bytes)
    → Carries self m
    → Carries (update_all self pieces) (m ++ joined pieces)
update_all-Carries self m [] v = subst (Carries self) (sym (append-nil m)) v
update_all-Carries self m (piece ∷ pieces) v =
    subst (Carries (update_all (update self piece) pieces)) (append_assoc m piece (joined pieces))
      (update_all-Carries (update self piece) (m ++ piece) pieces (update-Carries self m piece v))

-- The digest of a message in pieces, of any number and sizes, that go through ct_md5_init, one
-- ct_md5_update for each and ct_md5_final: it is that of the whole message with the mark 0x80, zeros
-- up to 56 bytes into a block, and the count of its bits modulo 2 ^ 64 behind it, whose blocks of 64
-- bytes go through md5_transform from the start values, in order.
pub md5_of_pieces :
    (pieces : List Bytes) → (finish (update_all init pieces)).0 ≡ digest (joined pieces)
md5_of_pieces pieces =
    finish-digest (update_all init pieces) (joined pieces)
      (update_all-Carries init [] pieces init-Carries)
