-- ===== src/Bytes/RingBuffer/Tests.antt =====
-- Concrete runs of the ring buffer.
use coter.Base.{◌-◌, ◌≡◌, refl, arith, min, some, [], ◌∷◌, ◌++◌, Bytes, take, drop, ◌<◌, size_mod}
use coter.Bytes.RingBuffer
use coter.Bytes.RingBuffer.{RingBuffer}
use coter.Bytes.RingBuffer.Inv
use coter.Bytes.RingBuffer.Inv.{contents}
use coter.Bytes.RingBuffer.Write.{write_lem}
use coter.Bytes.RingBuffer.Read.{read_lem}
use coter.Bytes.RingBuffer.Span.{commit-overflow}

-- 7, then 8, round the end of four bytes
abbrev wrapped : RingBuffer
wrapped = record { store = 8 ∷ 0 ∷ 0 ∷ 7 ∷ []; cap = 4; head = 3; tail = 1; len = 2 }

abbrev source : Bytes
source = 1 ∷ 2 ∷ 3 ∷ []

wrapped-IsValid : RingBuffer.Inv.IsValid wrapped
wrapped-IsValid = omega arith

contents-wrapped : contents wrapped ≡ 7 ∷ 8 ∷ []
contents-wrapped = refl

write_lem_example :
    let (n, r') = RingBuffer.write wrapped (some source) 3 in
    (n ≡ min 3 (wrapped.cap - wrapped.len))
    × RingBuffer.Inv.IsValid r'
    × (contents r' ≡ contents wrapped ++ take n source)
write_lem_example = write_lem wrapped source 3 wrapped-IsValid (omega arith) (omega arith)

read_lem_example :
    let (n, out, r') = RingBuffer.read wrapped 3 in
    (n ≡ min 3 wrapped.len)
    × (out ≡ take n (contents wrapped))
    × (contents r' ≡ drop n (contents wrapped))
    × RingBuffer.Inv.IsValid r'
    × (RingBuffer.peek wrapped 3 ≡ (n, out))
read_lem_example = read_lem wrapped 3 wrapped-IsValid

write_ptr-wrapped : RingBuffer.write_ptr wrapped ≡ some (1, 2)
unfolding RingBuffer.write_ptr
write_ptr-wrapped = refl

commit-overflow_example :
    let (n, r') = RingBuffer.commit wrapped (size_mod - 1) in
    (n ≡ size_mod - 1) × (wrapped.cap < n) × (r'.len < wrapped.len)
commit-overflow_example =
    commit-overflow wrapped (size_mod - 1) wrapped-IsValid (omega arith) (omega arith)
