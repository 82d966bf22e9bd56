-- ===== src/Crypto/Sha1.antt =====
-- crypto/src/sha1.c: the SHA-1 digest of a message that comes in pieces.
--
-- The index in ct_sha1_update has 32 bits, so that its loop need not end: a call answers `none` then.
pub mod Rounds
pub mod Loop
pub mod Update
pub mod Digest
use coter.Base.{
  ℕ, zero, suc, ◌+◌, ◌-◌, ◌*◌, ◌/◌, ◌%◌, ◌^◌, ◌==◌, Bool, true, false, Option, none, some, List, [],
  ◌∷◌, ◌++◌, Bytes, length, take, drop, slice, replicate, leb, ltb, if◌then◌else◌, splice, bit_and,
}
use coter.Encoding.Binary.{Endian}
use coter.Crypto.Sha1.Rounds.{Registers, transform}

-- `ct_sha1_ctx_t`
pub record Context : Type 0 where
  pub state : Registers
  pub low : ℕ
  pub high : ℕ
  pub buffer : Bytes

abbrev pub start : Registers
start = (1732584193, 4023233417, 2562383102, 271733878, 3285377520)

-- What the buffer holds before is not written.
unfoldable pub init : Bytes → Context
init buffer = record { state = start; low = 0; high = 0; buffer = buffer }

-- The count of bits, of 64 bits in two words.
abbrev pub low_after : ℕ → ℕ → ℕ
low_after low len = (low + len % 2 ^ 32 * 8 % 2 ^ 32) % 2 ^ 32

abbrev pub high_after : ℕ → ℕ → ℕ → ℕ
high_after low high len =
    ((if ltb (low_after low len) low then (high + 1) % 2 ^ 32 else high) + len / 2 ^ 29 % 2 ^ 32)
    % 2 ^ 32

abbrev pub filled : ℕ → ℕ
filled low = bit_and (low / 8) 63

-- `bind` of calls that need not end
abbrev pub and_then : {A B : Type 0} → Option A → (A → Option B) → Option B
and_then none f = none
and_then (some x) f = f x

-- The loop over whole blocks from the index `i` on, with `none` where the fuel ends before it.
unfoldable pub blocks : Endian → ℕ → Registers → Bytes → ℕ → Option (Registers × ℕ)
blocks host zero state p i = none
blocks host (suc fuel) state p i =
    let rest = blocks host fuel (transform host state (slice p i 64)) p ((i + 64) % 2 ^ 32) in
    if leb (i + 64) (length p) then rest else some (state, i)

unfoldable pub update : Endian → Context → Bytes → Option Context
unfolding blocks
update host self p =
    let len = length p in
    let low = low_after self.low len in
    let high = high_after self.low self.high len in
    let j = filled self.low in
    let buffer = splice self.buffer j (take (64 - j) p) in
    if ltb 63 (j + len)
    then and_then (blocks host (len + 1) (transform host self.state buffer) p (64 - j))
        (λ (state, i).
          some
            (record { state = state; low = low; high = high; buffer = splice buffer 0 (drop i p) }))
    else some (record self { low = low; high = high; buffer = splice self.buffer j p })

-- A word, the highest byte first.
abbrev pub be_word : ℕ → Bytes
be_word v = v / 2 ^ 24 % 2 ^ 8 ∷ v / 2 ^ 16 % 2 ^ 8 ∷ v / 2 ^ 8 % 2 ^ 8 ∷ v % 2 ^ 8 ∷ []

-- The loop of ct_sha1_final, one zero at a time.
unfoldable pub pad_loop : Endian → ℕ → Context → Option Context
pad_loop host zero self = none
pad_loop host (suc fuel) self =
    let rest = and_then (update host self (0 ∷ [])) (pad_loop host fuel) in
    if bit_and self.low 504 == 448 then some self else rest

abbrev pub digest_of : Registers → Bytes
digest_of (a, b, c, d, e) = be_word a ++ (be_word b ++ (be_word c ++ (be_word d ++ be_word e)))

-- The digest; the context is set to zeros then.
unfoldable pub finish : Endian → Context → Option Bytes
unfolding update pad_loop
finish host self =
    let finalcount = be_word self.high ++ be_word self.low in
    and_then (update host self (128 ∷ [])) (λ marked.
      and_then (pad_loop host 65 marked)
        (λ padded. and_then (update host padded finalcount) (λ last. some (digest_of last.state))))

-- `ct_sha1_sum`, on a context whose buffer holds anything
unfoldable pub sum : Endian → Bytes → Bytes → Option Bytes
unfolding init update finish
sum host garbage p = and_then (update host (init garbage) p) (finish host)
