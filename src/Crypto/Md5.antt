-- ===== src/Crypto/Md5.antt =====
-- crypto/src/md5.c: the MD5 digest of a message that comes in pieces.
pub mod Rounds
pub mod Chain
pub mod Update
pub mod Digest
use coter.Base.{
  ℕ, zero, suc, ◌+◌, ◌-◌, ◌*◌, ◌/◌, ◌%◌, ◌^◌, ◌==◌, Bool, true, false, List, [], ◌∷◌, ◌++◌, Bytes,
  length, take, drop, replicate, ltb, if◌then◌else◌, splice, bit_and,
}
use coter.Crypto.Md5.Rounds.{Registers, transform}

-- `ct_md5_ctx_t`; `block` is `in_`.
pub record Context : Type 0 where
  pub buf : Registers
  pub low : ℕ
  pub high : ℕ
  pub block : Bytes

abbrev pub start : Registers
start = (1732584193, 4023233417, 2562383102, 271733878)

unfoldable pub init : Context
init = record { buf = start; low = 0; high = 0; block = replicate 64 0 }

-- The count of bits, of 64 bits in two words.
abbrev pub low_after : ℕ → ℕ → ℕ
low_after low len = (low + len % 2 ^ 32 * 8 % 2 ^ 32) % 2 ^ 32

abbrev pub high_after : ℕ → ℕ → ℕ → ℕ
high_after low high len =
    ((if ltb (low_after low len) low then (high + 1) % 2 ^ 32 else high) + len / 2 ^ 29 % 2 ^ 32)
    % 2 ^ 32

-- The bytes in the block that wait for more.
abbrev pub filled : ℕ → ℕ
filled low = bit_and (low / 8) 63

-- The loop of ct_md5_update over whole blocks, and the copy of what is left.
unfoldable pub absorb : ℕ → Context → Bytes → Context
absorb zero self bytes = record self { block = splice self.block 0 bytes }
absorb (suc fuel) self bytes =
    let block = splice self.block 0 (take 64 bytes) in
    let rest =
      absorb fuel (record self { buf = transform self.buf block; block = block }) (drop 64 bytes) in
    if ltb (length bytes) 64 then record self { block = splice self.block 0 bytes } else rest

unfoldable pub update : Context → Bytes → Context
unfolding absorb
update self bytes =
    let len = length bytes in
    let counted = record self {
      low = low_after self.low len;
      high = high_after self.low self.high len;
    } in
    let t = filled self.low in
    let block = splice self.block t (take (64 - t) bytes) in
    if t == 0
    then absorb len counted bytes
    else if ltb len (64 - t)
    then record counted { block = splice self.block t bytes }
    else absorb len (record counted { buf = transform self.buf block; block = block })
        (drop (64 - t) bytes)

-- `md5_store_le32`
abbrev pub store_le32 : ℕ → Bytes
store_le32 v = v % 2 ^ 8 ∷ v / 2 ^ 8 % 2 ^ 8 ∷ v / 2 ^ 16 % 2 ^ 8 ∷ v / 2 ^ 24 % 2 ^ 8 ∷ []

abbrev pub zeros : ℕ → Bytes
zeros n = replicate n 0

-- What ct_md5_final does before it stores the count of bits: the mark, and zeros up to index 56.
abbrev pub pad : Context → Context
pad self =
    let at = filled self.low in
    let left = 63 - at in
    let marked = splice self.block at (128 ∷ []) in
    let full = splice marked (at + 1) (zeros left) in
    if ltb left 8
    then record self { buf = transform self.buf full; block = splice full 0 (zeros 56) }
    else record self { block = splice marked (at + 1) (zeros (left - 8)) }

abbrev pub last_block : Context → Bytes
last_block self = splice (splice self.block 56 (store_le32 self.low)) 60 (store_le32 self.high)

abbrev pub digest_of : Registers → Bytes
digest_of (a, b, c, d) = store_le32 a ++ (store_le32 b ++ (store_le32 c ++ store_le32 d))

-- The digest, and the context after ct_md5_final.
unfoldable pub finish : Context → Bytes × Context
unfolding init
finish self = let padded = pad self in (digest_of (transform padded.buf (last_block padded)), init)

-- `ct_md5_sum`
unfoldable pub sum : Bytes → Bytes
unfolding init update finish
sum bytes = let (digest, _) = finish (update init bytes) in digest
