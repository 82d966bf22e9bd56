-- ===== src/Bytes/MsgBuf/Tests.antt =====
-- Tests of the message buffer.
use coter.Base.{◌+◌, ◌≡◌, arith, [], ◌∷◌, ◌++◌, List, Bytes, take}
use coter.Bytes.MsgBuf.{MsgBuf}
use coter.Bytes.MsgBuf.Writes.{IsValid, contents, joined, write_all, write_all_appends}

-- five bytes, two of which are written
abbrev two_of_five : MsgBuf
two_of_five = record { store = 104 ∷ 105 ∷ 0 ∷ 0 ∷ 0 ∷ []; cap = 5; write_pos = 2 }

two_of_five-IsValid : IsValid two_of_five
two_of_five-IsValid = record { storage = omega arith; inside = omega arith }

abbrev two_items : List Bytes
two_items = (33 ∷ 34 ∷ []) ∷ (35 ∷ 36 ∷ []) ∷ []

write_all_appends_example :
    let (total, final) = write_all two_of_five two_items in
    (contents final ≡ take 5 (contents two_of_five ++ joined two_items))
    × (final.write_pos ≡ 2 + total)
    × IsValid final
write_all_appends_example = write_all_appends two_of_five two_items two_of_five-IsValid
