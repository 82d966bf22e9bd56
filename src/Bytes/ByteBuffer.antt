-- ===== src/Bytes/ByteBuffer.antt =====
-- bytes/include/coter/bytes/bytes.h and bytes/src/bytes.c: a fixed-size byte buffer with a position, a
-- byte order and a latched overflow flag.
pub mod Words
pub mod Blocks
pub mod Inv
pub mod Call
pub mod Run
pub mod Layout
pub mod RoundTrip
pub mod Streams
mod Tests
use coter.Base.{
  ℕ, ◌+◌, ◌-◌, ◌%◌, ◌^◌, ◌==◌, Bool, true, false, Option, none, some, ℤ, pos, negsuc, minus_one,
  to_int, Bytes, leb, ltb, if◌then◌else◌, slice, splice,
}
use coter.Encoding.Binary.{Endian, big}

-- `uint32_t` sums and differences
abbrev pub add32 : ℕ → ℕ → ℕ
add32 a b = (a + b) % 2 ^ 32

abbrev pub sub32 : ℕ → ℕ → ℕ
sub32 a b = (a + 2 ^ 32 - b) % 2 ^ 32

-- `ct_bytes_t`. `store` is the memory behind `data_`.
pub record ByteBuffer : Type 0 where
  pub store : Bytes
  pub cap : ℕ
  pub len : ℕ
  pub pos : ℕ
  pub endian : Endian
  pub hlswap : Bool
  pub overflow : Bool

-- `ct_bytes_readable` and `ct_bytes_writable`
abbrev pub readable : ByteBuffer → ℕ
readable s = sub32 s.len s.pos

abbrev pub writable : ByteBuffer → ℕ
writable s = sub32 s.cap s.pos

abbrev pub clear : ByteBuffer → ByteBuffer
clear s = record s { len = 0; pos = 0; overflow = false }

-- what every call does that would pass a bound
abbrev pub flag : ByteBuffer → ByteBuffer
flag s = record s { overflow = true }

pub init : Bytes → ℕ → ByteBuffer
init store cap = record {
  store = store;
  cap = cap % 2 ^ 32;
  len = 0;
  pos = 0;
  endian = big;
  hlswap = false;
  overflow = false;
}

-- `ct_bytes_from`
pub from : Bytes → ℕ → ℕ → ByteBuffer
from store cap len =
    let final_cap = cap % 2 ^ 32 in
    let final_len = len % 2 ^ 32 in
    record {
      store = store;
      cap = final_cap;
      len = if leb final_len final_cap then final_len else final_cap;
      pos = 0;
      endian = big;
      hlswap = false;
      overflow = false;
    }

unfoldable pub seek : ByteBuffer → ℕ → ℤ × ByteBuffer
seek s offset =
    if ltb s.len offset then (minus_one, flag s) else (pos 0, record s { pos = offset % 2 ^ 32 })

unfoldable pub reseek : ByteBuffer → ℕ → ℤ × ByteBuffer
reseek s offset =
    if ltb s.len offset
    then (minus_one, flag s)
    else (pos 0, record s { pos = sub32 s.len (offset % 2 ^ 32) })

-- The state after a move of the position by `n`, with `len_` drawn along.
abbrev pub advance : ByteBuffer → ℕ → ByteBuffer
advance s n =
    let moved = add32 s.pos (n % 2 ^ 32) in
    record s { pos = moved; len = if ltb s.len moved then moved else s.len }

-- a count cut down to a limit, and the buffer, flagged if it had to be cut
abbrev pub limit : ByteBuffer → ℕ → ℕ → ℕ × ByteBuffer
limit s bound n = if ltb bound n then (bound, flag s) else (n, s)

unfoldable pub skip : ByteBuffer → ℕ → ℤ × ByteBuffer
skip s request =
    let (n, t) = limit s (readable s) request in
    (to_int n, record t { pos = add32 t.pos (n % 2 ^ 32) })

unfoldable pub commit : ByteBuffer → ℕ → ℤ × ByteBuffer
commit s request = let (n, t) = limit s (writable s) request in (to_int n, advance t n)

unfoldable pub truncate : ByteBuffer → ℕ → ByteBuffer
truncate s new_len =
    let len = new_len % 2 ^ 32 in
    if leb s.len new_len
    then s
    else record s { len = len; pos = if ltb len s.pos then len else s.pos }

-- The view of `ct_bytes_since` shares the memory: its byte `i` is byte `start + i` of `store`.
unfoldable pub since : ByteBuffer → ℕ → ℕ → Option (ℕ × ByteBuffer)
since s start end' =
    let end = if end' == 0 then s.len else end' in
    if ltb end start
    then none
    else if ltb s.cap end
    then none
    else some (
      start,
      record s {
        cap = sub32 s.cap (start % 2 ^ 32);
        len = (end - start) % 2 ^ 32;
        pos = 0;
        overflow = false;
      },
    )

unfoldable pub compact : ByteBuffer → ByteBuffer
compact s = if s.pos == 0 then s else if leb s.len s.pos then clear s else record s {
  store = splice s.store 0 (slice s.store s.pos (readable s));
  len = readable s % 2 ^ 32;
  pos = 0;
}
