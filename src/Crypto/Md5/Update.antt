-- ===== src/Crypto/Md5/Update.antt =====
-- A context that carries a message carries a longer one after ct_md5_update.
use coter.Base.{
  ℕ, suc, ◌+◌, ◌-◌, ◌*◌, ◌/◌, ◌%◌, ◌^◌, ◌≤◌, ◌<◌, ◌≡◌, ◌==◌, refl, sym, ap, ◌∙◌, arith, [], ◌∷◌,
  ◌++◌, append-nil, append_assoc, Bytes, length, length-take, length-drop, length-append, take,
  drop, take-append-drop, ltb, splice, length-splice, take-splice, and_low, Bool-cases, inl, inr,
}
use coter.Crypto.Md5.Rounds.{transform}
use coter.Crypto.Md5.{Context, start, init, low_after, high_after, filled, absorb, update}
use coter.Crypto.Blocks.{Holds, filled_up, extended}
use coter.Crypto.Md5.Chain.{absorb-Holds}

-- the context after the message `m`
pub record Carries (self : Context) (m : Bytes) : Type 0 where
  pub held : Holds transform start self.buf self.block m
  pub bits : self.low + 2 ^ 32 * self.high ≡ 8 * length m % 2 ^ 64
  pub low_small : self.low < 2 ^ 32
  pub high_small : self.high < 2 ^ 32

pub init-Carries : Carries init []
unfolding init
init-Carries = record {
  held = record {
    count = 0;
    whole = [];
    rest = [];
    parts = refl;
    blocks = refl;
    short = omega arith;
    chained = refl;
    waits = refl;
    size = refl;
  };
  bits = omega arith;
  low_small = omega arith;
  high_small = omega arith;
}

pub bits_after :
    (low high l len : ℕ)
    → low + 2 ^ 32 * high ≡ 8 * l % 2 ^ 64
    → low < 2 ^ 32
    → high < 2 ^ 32
    → low_after low len + 2 ^ 32 * high_after low high len ≡ 8 * (l + len) % 2 ^ 64
bits_after low high l len e p q = ground arith

length-zero : (xs : Bytes) → length xs ≡ 0 → xs ≡ []
length-zero [] e = refl
length-zero (x ∷ xs) e = absurd (omega arith)

pub filled_lem : (low : ℕ) → filled low ≡ low / 8 % 64
filled_lem low = and_low 6 (low / 8)

pub filled_rest :
    (low high c r : ℕ)
    → low + 2 ^ 32 * high ≡ 8 * (64 * c + r) % 2 ^ 64
    → low < 2 ^ 32
    → r < 64
    → low / 8 % 64 ≡ r
filled_rest low high c r e p q = omega arith

module _ (self : Context) (m bytes : Bytes) (v : Carries self m) where
  pub waiting : filled self.low ≡ length v.held.rest
  waiting =
      let size : length m ≡ 64 * v.held.count + length v.held.rest =
        omega
          (arith, ap length v.held.parts, length-append v.held.whole v.held.rest, v.held.blocks) in
      filled_lem self.low
      ∙ filled_rest self.low self.high v.held.count (length v.held.rest)
          (omega (arith, v.bits, size)) v.low_small v.held.short

  -- with the count of bits after the call
  counted :
      (after : Context)
      → Holds transform start after.buf after.block (m ++ bytes)
      → after.low ≡ low_after self.low (length bytes)
      → after.high ≡ high_after self.low self.high (length bytes)
      → Carries after (m ++ bytes)
  counted after held l h = record {
    held = held;
    bits = omega (
      arith,
      l,
      h,
      length-append m bytes,
      bits_after self.low self.high (length m) (length bytes) v.bits v.low_small v.high_small,
    );
    low_small = omega (arith, l);
    high_small = omega (arith, h);
  }

  -- nothing waits in the block
  from_block_end :
      length v.held.rest ≡ 0
      → (at : Context) → at.buf ≡ self.buf
      → at.block ≡ self.block
      → let after = absorb (length bytes) at bytes in
        Holds transform start after.buf after.block (m ++ bytes)
        × (after.low ≡ at.low)
        × (after.high ≡ at.high)
  from_block_end e at b k =
      let whole : v.held.whole ≡ m =
        sym (append-nil v.held.whole)
        ∙ ap (◌++◌ v.held.whole) (sym (length-zero v.held.rest e))
        ∙ v.held.parts in
      let done =
        absorb-Holds (length bytes) at bytes v.held.count v.held.whole (omega arith) v.held.blocks
          (b ∙ v.held.chained) (omega (arith, ap length k, v.held.size)) in
      rw whole at done

  -- the bytes do not fill the block
  still_waits :
      length v.held.rest + length bytes < 64
      → Holds transform start self.buf (splice self.block (length v.held.rest) bytes) (m ++ bytes)
  still_waits h = record {
    count = v.held.count;
    whole = v.held.whole;
    rest = v.held.rest ++ bytes;
    parts =
        sym (append_assoc v.held.whole v.held.rest bytes)
        ∙ ap (λ (l : Bytes). l ++ bytes) v.held.parts;
    blocks = v.held.blocks;
    short = omega (arith, length-append v.held.rest bytes);
    chained = v.held.chained;
    waits =
        take-splice self.block (length v.held.rest) bytes (length (v.held.rest ++ bytes))
          (length-append v.held.rest bytes)
          (omega (arith, v.held.size, length-append v.held.rest bytes))
        ∙ ap (λ (l : Bytes). l ++ bytes) v.held.waits;
    size = omega (arith, v.held.size, length-splice self.block (length v.held.rest) bytes);
  }

  -- they fill it
  fills :
      64 ≤ length v.held.rest + length bytes
      → (at : Context)
      → let first = take (64 - length v.held.rest) bytes in
        let block = splice self.block (length v.held.rest) first in
        at.buf ≡ transform self.buf block
        → at.block ≡ block
        → let after = absorb (length bytes) at (drop (64 - length v.held.rest) bytes) in
          Holds transform start after.buf after.block (m ++ bytes)
          × (after.low ≡ at.low)
          × (after.high ≡ at.high)
  fills h at b k =
      let rest = v.held.rest in
      let left = 64 - length rest in
      let first = take left bytes in
      let first_size : length rest + length first ≡ 64 =
        omega (arith, v.held.short, length-take left bytes) in
      let full : splice self.block (length rest) first ≡ rest ++ first =
        filled_up self.block (length rest) rest first v.held.size v.held.waits first_size in
      let full_size : length (rest ++ first) ≡ 64 = omega (arith, length-append rest first) in
      let chained : at.buf ≡ _ =
        b
        ∙ ap (transform self.buf) full
        ∙ extended transform start self.buf (rest ++ first) v.held.count v.held.whole v.held.blocks
            full_size v.held.chained in
      let done =
        absorb-Holds (length bytes) at (drop left bytes) (suc v.held.count)
          (v.held.whole ++ (rest ++ first)) (omega (arith, length-drop left bytes))
          (omega (arith, length-append v.held.whole (rest ++ first), v.held.blocks)) chained
          (omega (arith, ap length k, length-splice self.block (length rest) first, v.held.size)) in
      let joined : (v.held.whole ++ (rest ++ first)) ++ drop left bytes ≡ m ++ bytes =
        ap (λ (l : Bytes). l ++ drop left bytes)
          (sym (append_assoc v.held.whole rest first) ∙ ap (λ (l : Bytes). l ++ first) v.held.parts)
        ∙ append_assoc m first (drop left bytes)
        ∙ ap (◌++◌ m) (take-append-drop left bytes) in
      rw joined at done

  pub update-Carries : Carries (update self bytes) (m ++ bytes)
  unfolding update
  update-Carries =
      let r = length v.held.rest in
      let len = length bytes in
      let low = low_after self.low len in
      let high = high_after self.low self.high len in
      let block = splice self.block r (take (64 - r) bytes) in
      elim (Bool-cases (r == 0)) [
        | inl e ↦
            let (held, l, h) =
              from_block_end (ground arith) (record self { low = low; high = high }) refl refl in
            rw (waiting, e) (counted _ held l h)
        | inr e ↦ elim (Bool-cases (ltb len (64 - r))) [
          | inl few ↦ rw (waiting, e, few) (counted _ (still_waits (ground arith)) refl refl)
          | inr many ↦
              let (held, l, h) =
                fills (ground arith)
                  (record { buf = transform self.buf block; low = low; high = high; block = block })
                  refl refl in
              rw (waiting, e, many) (counted _ held l h)
        ]
      ]
