-- ===== src/Encoding/Base64.antt =====
-- encoding/src/base64.c: bytes as groups of four characters.
--
-- A call that writes returns its result and what it writes at its output buffer.
pub mod Text
pub mod RoundTrip
use Prim.Native.Nat.{bit_and, bit_or}
use coter.Base.{
  ℕ, zero, suc, true, false, ◌+◌, ◌-◌, ◌*◌, ◌/◌, ◌%◌, Bool, Option, none, some, [], ◌∷◌, ◌++◌, leb,
  ltb, ◌==◌, ◌&&◌, shl, shr, Bytes, length, take, drop, if◌then◌else◌,
}

-- `base64_encode_single`, in ASCII
unfoldable pub encode_single : ℕ → ℕ
encode_single c =
    if ltb c 26
    then c + 65
    else if ltb c 52
    then (c - 26) + 97
    else if ltb c 62
    then (c - 52) + 48
    else if c == 62
    then 43
    else 47

-- `base64_decode_single`, with `none` for -1
unfoldable pub decode_single : ℕ → Option ℕ
decode_single c =
    if leb 65 c && leb c 90
    then some (c - 65)
    else if leb 97 c && leb c 122
    then some (c + 26 - 97)
    else if leb 48 c && leb c 57
    then some (c + 52 - 48)
    else if c == 43
    then some 62
    else if c == 47
    then some 63
    else if c == 61
    then some 64
    else none

-- `ct_base64_encoder_t`
pub record Encoder : Type 0 where
  pub byte0 : ℕ
  pub byte1 : ℕ
  pub byte2 : ℕ
  pub count : ℕ

abbrev pub encoder_init : Encoder
encoder_init = record { byte0 = 0; byte1 = 0; byte2 = 0; count = 0 }

-- the characters of a full group
unfoldable pub quad : ℕ → ℕ → ℕ → Bytes
quad x y z =
    encode_single (shr x 2)
    ∷ encode_single (bit_or (shl (bit_and x 3) 4) (shr y 4))
    ∷ encode_single (bit_or (shl (bit_and y 15) 2) (shr z 6))
    ∷ encode_single (bit_and z 63)
    ∷ []

abbrev pub quad_of : Encoder → Bytes
quad_of self = quad self.byte0 self.byte1 self.byte2

abbrev pub emptied : Encoder → Encoder
emptied self = record self { count = 0 }

-- `state_bytes_[state_count_] = x; state_count_++`, below a count of 3
unfoldable pub keep : Encoder → ℕ → Encoder
keep self x =
    if self.count == 0
    then record self { byte0 = x; count = 1 }
    else if self.count == 1
    then record self { byte1 = x; count = 2 }
    else record self { byte2 = x; count = 3 }

-- The loop over the input: whether the characters have had room, and the characters.
unfoldable pub update_loop : Encoder → Bytes → ℕ → Bool × Bytes × Encoder
update_loop self [] room = (true, [], self)
update_loop self (x ∷ xs) room =
    let kept = keep self x in
    let (ok, text, later) = update_loop (emptied kept) xs (room - 4) in
    let more = update_loop kept xs room in
    if kept.count == 3
    then (if ltb room 4 then (false, [], kept) else (ok, quad_of kept ++ text, later))
    else more

unfoldable pub encoder_update : Encoder → Bytes → ℕ → ℕ × Bytes × Encoder
encoder_update self xs max =
    let (ok, text, later) = update_loop (emptied self) xs (max - 4) in
    let whole = quad_of self ++ text in
    let (ok_at, text_at, later_at) = update_loop self xs max in
    if self.count == 3
    then (if ltb max 4 then (0, [], self) else ((if ok then length whole else 0), whole, later))
    else ((if ok_at then length text_at else 0), text_at, later_at)

-- the last group, filled up with `=`
unfoldable pub padded : Encoder → Bytes
padded self =
    if self.count == 3
    then quad_of self
    else if self.count == 1
    then encode_single (shr self.byte0 2)
      ∷ encode_single (shl (bit_and self.byte0 3) 4)
      ∷ 61
      ∷ 61
      ∷ []
    else if self.count == 2
    then encode_single (shr self.byte0 2)
      ∷ encode_single (bit_or (shl (bit_and self.byte0 3) 4) (shr self.byte1 4))
      ∷ encode_single (shl (bit_and self.byte1 15) 2)
      ∷ 61
      ∷ []
    else []

-- A count above 3 is not reached.
unfoldable pub encoder_final : Encoder → ℕ → ℕ × Bytes × Encoder
unfolding padded
encoder_final self max =
    if ltb 0 self.count
    then (if leb self.count 3 && ltb max 5
        then (0, [], self)
        else (length (padded self), padded self ++ 0 ∷ [], emptied self))
    else if ltb max 1
    then (0, [], self)
    else (0, 0 ∷ [], self)

-- `xs` after a write of `ys` at `n`
abbrev pub written_at : ℕ → Bytes → Bytes → Bytes
written_at n xs ys = take n xs ++ ys ++ drop (n + length ys) xs

unfoldable pub encode : Bytes → ℕ → ℕ × Bytes
unfolding encoder_update encoder_final
encode xs max =
    let needed = (length xs / 3 + (if length xs % 3 == 0 then 0 else 1)) * 4 + 1 in
    let (written, text, state) = encoder_update encoder_init xs (max - 1) in
    let (last_written, last, _) = encoder_final state (max - written) in
    if ltb max needed
    then (0, if ltb 0 max then 0 ∷ [] else [])
    else (written + last_written, written_at written text last)

infixl 10 ◌>>=◌
abbrev ◌>>=◌ : Option ℕ → (ℕ → Option Bytes) → Option Bytes
none >>= f = none
some x >>= f = f x

-- one group: whether its characters are legal, and its bytes
unfoldable pub decode_group : ℕ → ℕ → ℕ → ℕ → Option Bytes
decode_group first second third fourth = do
  a ← decode_single first
  b ← decode_single second
  c ← decode_single third
  d ← decode_single fourth
  if a == 64
      then none
      else if b == 64
      then none
      else some (
          bit_or (shl a 2) (shr b 4) % 256
          ∷ (if third == 61
              then []
              else bit_or (shl b 4) (shr c 2) % 256
                ∷ (if fourth == 61 then [] else bit_or (shl c 6) d % 256 ∷ [])))

-- The bytes of the groups up to one that is not legal.
unfoldable pub decode_loop : Bytes → Bool × Bytes
decode_loop (a ∷ b ∷ c ∷ d ∷ xs) =
    let (ok, rest) = decode_loop xs in
    elim (decode_group a b c d) [ none ↦ (false, []) | some out ↦ (ok, out ++ rest) ]
decode_loop _ = (true, [])

unfoldable pub decode : Bytes → ℕ → ℕ × Bytes
decode xs max =
    let (ok, out) = decode_loop xs in
    if ltb max (length xs / 4 * 3 + 1)
    then (0, if ltb 0 max then 0 ∷ [] else [])
    else if ok
    then (length out, out ++ 0 ∷ [])
    else (0, written_at 0 (0 ∷ []) out)
