-- ===== src/Bytes/ByteBuffer/Call.antt =====
-- The calls on a byte buffer, as a client makes them.
use coter.Base.{ℕ, Bool, Option, ℤ, Bytes}
use coter.Encoding.Binary.{Endian}

-- The calls that change the buffer or its memory.
pub data Call : Type 0 where
  seek reseek skip commit truncate : ℕ → Call
  compact clear rewind clear_error : Call
  set_endian : Endian → Call
  set_hlswap : Bool → Call
  fill overfill : ℕ → ℕ → Call
  set_bytes : ℕ → Option Bytes → ℕ → Call
  poke_bytes : ℤ → Option Bytes → ℕ → Call
  take_bytes : Bool → ℕ → Call
  put_bytes : Option Bytes → ℕ → Call
  put_u8 put_u16 put_u32 put_u64 : ℕ → Call
  take_u8 take_u16 take_u32 take_u64 : Call
  set_u8 set_u16 set_u32 set_u64 : ℕ → ℕ → Call
