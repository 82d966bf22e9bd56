-- ===== src/Bytes/MsgBuf.antt =====
-- bytes/src/msgbuf.c and bytes/include/coter/bytes/msgbuf.h: a message buffer of a fixed capacity.
pub mod Writes
mod Tests
use coter.Base.{
  ℕ, ◌+◌, ◌-◌, ◌^◌, ◌==◌, Bool, true, false, ◌||◌, Option, none, some, ℤ, pos, minus_one, Bytes,
  take, drop, ltb, if◌then◌else◌, splice,
}
use coter.Bytes.ByteBuffer.{ByteBuffer}
use coter.Encoding.Binary.{big}

-- `ct_msgbuf_t` without its list node: `store` is the memory from `buffer_` on, and `write_pos` the
-- distance of `write_pos_` from it.
pub record MsgBuf : Type 0 where
  pub store : Bytes
  pub cap : ℕ
  pub write_pos : ℕ

-- The memory that malloc returns, whatever is in it, is a function of its size.
unfoldable pub create : (ℕ → Option Bytes) → ℕ → Option MsgBuf
create malloc capacity =
    let cap = if capacity == 0 then 1024 else capacity in
    elim (malloc cap) [
      | none ↦ none
      | some store ↦ some (record { store = store; cap = cap; write_pos = 0 })
    ]

abbrev pub count : MsgBuf → ℕ
count self = self.write_pos

abbrev pub available : MsgBuf → ℕ
available self = self.cap - self.write_pos

abbrev pub clear : MsgBuf → MsgBuf
clear self = record self { write_pos = 0 }

abbrev pub is_empty : MsgBuf → Bool
is_empty self = self.write_pos == 0

abbrev pub is_full : MsgBuf → Bool
is_full self = self.write_pos == self.cap

-- the number of bytes returned, and the buffer after the call
unfoldable pub write : Option MsgBuf → Option Bytes → ℕ → ℕ × Option MsgBuf
write none bytes length = (0, none)
write (some self) none length = (0, some self)
write (some self) (some bytes) length =
    let n = if ltb (available self) length then available self else length in
    if length == 0 then (0, some self) else if n == 0 then (0, some self) else (
      n,
      some (record self {
        store = splice self.store self.write_pos (take n bytes);
        write_pos = self.write_pos + n;
      }),
    )

-- `ct_msgbuf_seg`. The memory of the view is that of the buffer, from `start` on.
unfoldable pub seg : Option MsgBuf → Option ByteBuffer → ℕ → ℕ → ℤ × Option ByteBuffer
seg none view start end = (minus_one, view)
seg (some self) none start end = (minus_one, none)
seg (some self) (some view) start end =
    let view_cap = self.cap - start in
    if ltb end start || ltb self.cap end
    then (minus_one, some view)
    else if ltb (2 ^ 32 - 1) view_cap
    then (minus_one, some view)
    else (
      pos 0,
      some (record {
        store = drop start self.store;
        cap = view_cap;
        len = end - start;
        pos = 0;
        endian = big;
        hlswap = false;
        overflow = false;
      }),
    )
