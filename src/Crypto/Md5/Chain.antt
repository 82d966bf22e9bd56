-- ===== src/Crypto/Md5/Chain.antt =====
-- The loop of ct_md5_update.
use coter.Base.{
  ℕ, zero, suc, ◌*◌, ◌≤◌, ◌≡◌, refl, ap, ◌∙◌, arith, false, [], ◌++◌, append_assoc, Bytes, length,
  length-take, length-drop, length-append, take, drop, take-append-drop, ltb, splice, length-splice,
  Bool-cases, inl, inr,
}
use coter.Crypto.Blocks.{chain, Holds, copied, filled_up, extended}
use coter.Crypto.Md5.Rounds.{transform}
use coter.Crypto.Md5.{Context, start, absorb}

enough : {n : ℕ} → ltb n 64 ≡ false → 64 ≤ n
enough e = ground arith

-- the loop, from the end of a block
pub absorb-Holds :
    (fuel : ℕ) (self : Context) (bytes : Bytes) (count : ℕ) (whole : Bytes)
    → length bytes ≤ fuel
    → length whole ≡ 64 * count
    → self.buf ≡ chain transform count start whole
    → length self.block ≡ 64
    → let after = absorb fuel self bytes in
      Holds transform start after.buf after.block (whole ++ bytes)
      × (after.low ≡ self.low)
      × (after.high ≡ self.high)
unfolding absorb
absorb-Holds zero self bytes count whole f e c z =
    (copied transform start self.buf self.block bytes count whole (omega arith) e c z, refl, refl)
absorb-Holds (suc fuel) self bytes count whole f e c z = elim (Bool-cases (ltb (length bytes) 64)) [
  | inl few ↦ rw few (
    copied transform start self.buf self.block bytes count whole (ground arith) e c z,
    refl,
    refl,
  )
  | inr many ↦
      let b = take 64 bytes in
      let b_size : length b ≡ 64 = omega (arith, length-take 64 bytes, enough many) in
      let block : splice self.block 0 b ≡ b = filled_up self.block 0 [] b z refl (omega arith) in
      let after = record self {
        buf = transform self.buf (splice self.block 0 b);
        block = splice self.block 0 b;
      } in
      let chained : after.buf ≡ chain transform (suc count) start (whole ++ b) =
        rw block (extended transform start self.buf b count whole e b_size c) in
      let next =
        absorb-Holds fuel after (drop 64 bytes) (suc count) (whole ++ b)
          (omega (arith, length-drop 64 bytes)) (omega (arith, length-append whole b)) chained
          (omega (arith, length-splice self.block 0 b)) in
      let joined : (whole ++ b) ++ drop 64 bytes ≡ whole ++ bytes =
        append_assoc whole b (drop 64 bytes) ∙ ap (◌++◌ whole) (take-append-drop 64 bytes) in
      rw many (rw joined at next)
]
