-- ===== src/Bytes/ByteBuffer/Blocks.antt =====
-- The calls of bytes.c that move blocks of bytes, fill memory or search it.
use mathlib.Core.Option
use coter.Base.{
  ℕ, suc, ◌+◌, ◌-◌, ◌==◌, Bool, Option, none, some, ℤ, pos, minus_one, to_int, [], ◌∷◌, Bytes, leb,
  ltb, ◌||◌, if◌then◌else◌, slice, splice, take, replicate,
}
use coter.Bytes.ByteBuffer.{ByteBuffer, readable, writable, flag, advance, limit, add32}
use coter.Bytes.ByteBuffer.Words.{abs_pos}

-- `memchr`: the index of the first such byte
unfoldable pub memchr : ℕ → Bytes → Option ℕ
memchr bt [] = none
memchr bt (x ∷ xs) = if x == bt then some 0 else Option.map suc (memchr bt xs)

-- The result is the distance of the match from `pos_ + offset`.
unfoldable pub find : ByteBuffer → ℕ → ℕ → ℤ
find s bt offset =
    if leb (readable s) offset
    then minus_one
    else elim (memchr bt (slice s.store (s.pos + offset) (readable s - offset))) [
      | none ↦ minus_one
      | some i ↦ to_int i
    ]

unfoldable pub fill : ByteBuffer → ℕ → ℕ → ℤ × ByteBuffer
fill s bt request =
    let (n, t) = limit s (writable s) request in
    if n == 0
    then (pos 0, t)
    else (to_int n, advance (record t { store = splice t.store t.pos (replicate n bt) }) n)

unfoldable pub overfill : ByteBuffer → ℕ → ℕ → ℤ × ByteBuffer
overfill s bt request =
    let (n, t) = limit s s.cap request in
    if n == 0
    then (pos 0, t)
    else (to_int n, record t { store = splice t.store 0 (replicate n bt) })

-- A destination is given by whether it is not null; what is written there comes back. A source is
-- what the pointer points to, `none` for a null pointer.
unfoldable pub get_bytes : ByteBuffer → ℕ → Bool → ℕ → ℤ × Option Bytes
get_bytes s offset p length =
    if length == 0
    then (pos 0, none)
    else if leb s.len offset
    then (pos 0, none)
    else let n = if ltb (s.len - offset) length then s.len - offset else length in
      if p
      then (if n == 0 then (pos 0, none) else (to_int n, some (slice s.store offset n)))
      else (pos 0, none)

unfoldable pub set_bytes : ByteBuffer → ℕ → Option Bytes → ℕ → ℤ × ByteBuffer
set_bytes s offset p length =
    if ltb s.len offset || ltb (s.len - offset) length then (minus_one, flag s) else elim p [
      | none ↦ (pos 0, s)
      | some src ↦
          if length == 0
          then (pos 0, s)
          else (pos 0, record s { store = splice s.store offset (take length src) })
    ]

unfoldable pub peek_bytes_at : ByteBuffer → Option ℕ → Bool → ℕ → ℤ × Option Bytes
peek_bytes_at s none p length = (pos 0, none)
peek_bytes_at s (some at) p length =
    if leb s.len at
    then (pos 0, none)
    else let n = if ltb (s.len - at) length then s.len - at else length in
      if p
      then (if n == 0 then (pos 0, none) else (to_int n, some (slice s.store at n)))
      else (pos 0, none)

unfoldable pub peek_bytes : ByteBuffer → ℤ → Bool → ℕ → ℤ × Option Bytes
unfolding peek_bytes_at
peek_bytes s offset p length =
    if length == 0 then (pos 0, none) else peek_bytes_at s (abs_pos s offset) p length

unfoldable pub poke_bytes_at : ByteBuffer → Option ℕ → Option Bytes → ℕ → ℤ × ByteBuffer
poke_bytes_at s none p length = (minus_one, flag s)
poke_bytes_at s (some at) p length =
    if ltb s.len at || ltb (s.len - at) length then (minus_one, flag s) else elim p [
      | none ↦ (pos 0, s)
      | some src ↦
          if length == 0
          then (pos 0, s)
          else (pos 0, record s { store = splice s.store at (take length src) })
    ]

unfoldable pub poke_bytes : ByteBuffer → ℤ → Option Bytes → ℕ → ℤ × ByteBuffer
unfolding poke_bytes_at
poke_bytes s offset p length = poke_bytes_at s (abs_pos s offset) p length

unfoldable pub take_bytes : ByteBuffer → Bool → ℕ → ℤ × Option Bytes × ByteBuffer
take_bytes s p request =
    let (n, t) = limit s (readable s) request in
    if p
    then (if n == 0
        then (pos 0, none, t)
        else (to_int n, some (slice t.store t.pos n), record t { pos = add32 t.pos n }))
    else (pos 0, none, t)

unfoldable pub put_bytes : ByteBuffer → Option Bytes → ℕ → ℤ × ByteBuffer
put_bytes s p request =
    let (n, t) = limit s (writable s) request in
    elim p [
      | none ↦ (pos 0, t)
      | some src ↦
          if n == 0
          then (pos 0, t)
          else (to_int n, advance (record t { store = splice t.store t.pos (take n src) }) n)
    ]
