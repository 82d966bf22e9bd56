-- ===== src/Bytes/ByteBuffer/Tests.antt =====
-- Concrete runs of the byte buffer.
use coter.Base.{
  drop, ◌≡◌, refl, arith, true, false, some, ◌≤◌, ◌<◌, ◌⊎◌, List, [], ◌∷◌, Bytes, length, splice,
  pos,
}
use coter.Encoding.Binary.{big, little, le_bytes}
use coter.Bytes.ByteBuffer
use coter.Bytes.ByteBuffer.{ByteBuffer}
use coter.Bytes.ByteBuffer.Words.{put_u16, put_u32, put_u64, take_u16, take_u32, take_u64}
use coter.Bytes.ByteBuffer.Inv
use coter.Bytes.ByteBuffer.Call.{Call}
use coter.Bytes.ByteBuffer.Run.{run, run-IsValid}
use coter.Bytes.ByteBuffer.Layout.{layout}
use coter.Bytes.ByteBuffer.RoundTrip.{put_layout, take_of_put}

abbrev source : Bytes
source = 1 ∷ 2 ∷ 3 ∷ []

-- four bytes written, the first one read, in memory of twelve
abbrev half_read : ByteBuffer
half_read = record {
  store = 1 ∷ 2 ∷ 3 ∷ 4 ∷ 0 ∷ 0 ∷ 0 ∷ 0 ∷ 0 ∷ 0 ∷ 0 ∷ 0 ∷ [];
  cap = 12;
  len = 4;
  pos = 1;
  endian = big;
  hlswap = true;
  overflow = false;
}

half_read-IsValid : ByteBuffer.Inv.IsValid half_read
half_read-IsValid = omega arith

-- three bytes left, so that a word of 16 bits goes in and the wider ones do not
abbrev three_left : ByteBuffer
three_left = record half_read { pos = 9; len = 9 }

three_left-IsValid : ByteBuffer.Inv.IsValid three_left
three_left-IsValid = omega arith

put_layout_example :
    let a = put_u16 little three_left 258 in
    let b = put_u32 little three_left 16909060 in
    let c = put_u64 little three_left 5 in
    (((11 ≤ 12)
        × (a.store ≡ splice half_read.store 9 (layout big false (le_bytes 2 258)))
        × (a.pos ≡ 11)
        × (a.overflow ≡ false))
      ⊎ ((12 < 11) × (a ≡ record three_left { overflow = true })))
    × (((13 ≤ 12)
          × (b.store ≡ splice half_read.store 9 (layout big true (le_bytes 4 16909060)))
          × (b.pos ≡ 13)
          × (b.overflow ≡ false))
        ⊎ ((12 < 13) × (b ≡ record three_left { overflow = true })))
    × (((17 ≤ 12)
          × (c.store ≡ splice half_read.store 9 (layout big true (le_bytes 8 5)))
          × (c.pos ≡ 17)
          × (c.overflow ≡ false))
        ⊎ ((12 < 17) × (c ≡ record three_left { overflow = true })))
put_layout_example =
    put_layout little three_left 258 16909060 5 three_left-IsValid (omega arith) (omega arith)
      (omega arith)

take_of_put_example :
    let a = put_u16 big half_read 258 in
    let b = put_u32 big half_read 16909060 in
    let c = put_u64 big half_read 5 in
    (((3 ≤ 12) × (take_u16 big (ByteBuffer.seek a 1).1 ≡ (258, a)))
      ⊎ ((12 < 3) × (a ≡ record half_read { overflow = true })))
    × (((5 ≤ 12) × (take_u32 big (ByteBuffer.seek b 1).1 ≡ (16909060, b)))
        ⊎ ((12 < 5) × (b ≡ record half_read { overflow = true })))
    × (((9 ≤ 12) × (take_u64 big (ByteBuffer.seek c 1).1 ≡ (5, c)))
        ⊎ ((12 < 9) × (c ≡ record half_read { overflow = true })))
take_of_put_example =
    take_of_put big half_read 258 16909060 5 half_read-IsValid (omega arith) (omega arith)
      (omega arith)

abbrev calls : List Call
calls =
    Call.put_u32 7
    ∷ Call.seek 2
    ∷ Call.take_bytes true 9
    ∷ Call.compact
    ∷ Call.put_bytes (some source) 3
    ∷ Call.poke_bytes (pos 9) (some source) 3
    ∷ Call.set_u16 200 5
    ∷ []

-- the same in the first ten bytes of the memory
abbrev in_ten : ByteBuffer
in_ten = record half_read { cap = 10 }

in_ten-IsValid : ByteBuffer.Inv.IsValid in_ten
in_ten-IsValid = omega arith

run-IsValid_example :
    ByteBuffer.Inv.IsValid (run little in_ten calls)
    × ((run little in_ten calls).cap ≡ 10)
    × (length (run little in_ten calls).store ≡ 12)
    × (drop 10 (run little in_ten calls).store ≡ 0 ∷ 0 ∷ [])
run-IsValid_example = run-IsValid little in_ten calls in_ten-IsValid

-- the view from the third byte on
abbrev view : ByteBuffer
view = record half_read { cap = 10; len = 2; pos = 0 }

since-half_read : ByteBuffer.since half_read 2 0 ≡ some (2, view)
unfolding ByteBuffer.since
since-half_read = refl
