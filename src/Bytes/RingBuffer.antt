-- ===== src/Bytes/RingBuffer.antt =====
-- bytes/src/rbuf.c and bytes/include/coter/bytes/rbuf.h: a ring of bytes over memory of the caller.
pub mod Inv
pub mod Write
pub mod Read
pub mod Span
mod Tests
use coter.Base.{
  ℕ, ◌+◌, ◌-◌, ◌++◌, Option, none, some, Bytes, [], slice, splice, take, leb, ltb, ◌==◌,
  if◌then◌else◌, add_size, sub_size,
}

-- `ct_rbuf_t`. `store` is the memory behind `data_`.
pub record RingBuffer : Type 0 where
  pub store : Bytes
  pub cap : ℕ
  pub head : ℕ
  pub tail : ℕ
  pub len : ℕ

pub init : Bytes → ℕ → RingBuffer
init buffer cap = record { store = buffer; cap = cap; head = 0; tail = 0; len = 0 }

-- `ct_rbuf_clear`
abbrev pub clear : RingBuffer → RingBuffer
clear r = record r { head = 0; tail = 0; len = 0 }

-- `ct_rbuf_remain`
abbrev pub remain : RingBuffer → ℕ
remain r = sub_size r.cap r.len

-- a request to add `len` bytes, cut down to the space left
abbrev pub clip : RingBuffer → ℕ → ℕ
clip r len = if ltb r.cap (add_size len r.len) then remain r else len

-- The copy of ct_rbuf_write: the memory and `tail_` after it.
pub copy_in : RingBuffer → Bytes → ℕ → Bytes × ℕ
copy_in r src len =
    if leb (add_size r.tail len) r.cap
    then (splice r.store r.tail (take len src), add_size r.tail len)
    else (let first = sub_size r.cap r.tail in
        let rest = sub_size len first in
        (splice (splice r.store r.tail (take first src)) 0 (slice src first rest), rest))

-- `src` is what the pointer points to, `none` for a null pointer.
unfoldable pub write : RingBuffer → Option Bytes → ℕ → ℕ × RingBuffer
write r none request = (0, r)
write r (some src) request =
    let len = clip r request in
    if len == 0
    then (0, r)
    else (let (written, tail) = copy_in r src len in
        (
          len,
          record r {
            store = written;
            tail = if tail == r.cap then 0 else tail;
            len = add_size r.len len;
          },
        ))

-- The copy of ct_rbuf_read and ct_rbuf_peek: the bytes that `dst` receives, and `head_` after it.
pub copy_out : RingBuffer → ℕ → Bytes × ℕ
copy_out r len =
    if leb (add_size r.head len) r.cap
    then (slice r.store r.head len, add_size r.head len)
    else (let first = sub_size r.cap r.head in
        let rest = sub_size len first in (slice r.store r.head first ++ slice r.store 0 rest, rest))

-- The destination is a pointer that is not null; the bytes written there come back.
unfoldable pub read : RingBuffer → ℕ → ℕ × Bytes × RingBuffer
read r request =
    let len = if ltb r.len request then r.len else request in
    if len == 0
    then (0, [], r)
    else (let (out, head) = copy_out r len in
        (len, out, record r { head = if head == r.cap then 0 else head; len = r.len - len }))

unfoldable pub peek : RingBuffer → ℕ → ℕ × Bytes
peek r request =
    let len = if ltb r.len request then r.len else request in
    if len == 0 then (0, []) else (len, (copy_out r len).0)

-- `ct_rbuf_read_ptr`: the index that the pointer points to and the length of the span, if not empty
unfoldable pub read_ptr : RingBuffer → Option (ℕ × ℕ)
read_ptr r =
    let until_end = sub_size r.cap r.head in
    if r.len == 0 then none else some (r.head, (if leb r.len until_end then r.len else until_end))

unfoldable pub write_ptr : RingBuffer → Option (ℕ × ℕ)
write_ptr r =
    let writable = remain r in
    let until_end = sub_size r.cap r.tail in
    if writable == 0
    then none
    else some (r.tail, (if leb writable until_end then writable else until_end))

unfoldable pub remove : RingBuffer → ℕ → ℕ × RingBuffer
remove r request =
    let len = if ltb r.len request then r.len else request in
    let head = add_size r.head len in
    if ltb 0 len
    then (
      len,
      record r {
        head = if leb r.cap head then sub_size head r.cap else head;
        len = sub_size r.len len;
      },
    )
    else (len, r)

unfoldable pub commit : RingBuffer → ℕ → ℕ × RingBuffer
commit r request =
    let len = clip r request in
    let tail = add_size r.tail len in
    if ltb 0 len
    then (
      len,
      record r {
        tail = if leb r.cap tail then sub_size tail r.cap else tail;
        len = add_size r.len len;
      },
    )
    else (len, r)
