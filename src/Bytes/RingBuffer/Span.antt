-- ===== src/Bytes/RingBuffer/Span.antt =====
-- The zero-copy calls: ct_rbuf_read_ptr with ct_rbuf_remove, ct_rbuf_write_ptr with ct_rbuf_commit.
use native.Mathlib.Decide.{ℕ_discrete}
use coter.Base.{
  splice-nil, append-nil, take-length, zero, suc, take_of_tabulate, [], ◌∷◌, ℕ, ◌+◌, ◌-◌, ◌≤◌, ◌<◌,
  ◌≡◌, ◌++◌, ◌⊎◌, inl, inr, refl, ap, ap₂, ◌∙◌, sym, arith, min, some, none, length, Bytes, take,
  drop, slice, splice, length-splice, ltb, leb, if◌then◌else◌, size_mod, sub_size, add_size,
}
use coter.Bytes.RingBuffer.{RingBuffer, copy_in, write_ptr, read_ptr, remove, commit}
use coter.Bytes.RingBuffer.Inv.{IsValid, byte_at, contents}
use coter.Bytes.RingBuffer.Read.{contents-drop, flat-tabulate}
use coter.Bytes.RingBuffer.Write.{copied, copy_in-flat}

-- ct_rbuf_remove: on a valid buffer it discards as many of the oldest bytes as are requested and
-- held, answers their number, leaves the others as the contents, and keeps the buffer valid.
pub remove_lem :
    (r : RingBuffer) (request : ℕ)
    → IsValid r
    → let (n, r') = remove r request in
      (n ≡ min request r.len) × (contents r' ≡ drop n (contents r)) × IsValid r'
unfolding remove
remove_lem r request v = elim (ℕ_discrete (min request r.len) 0) [
  | yes e ↦ ground arith
  | no ne ↦
      let n = if ltb r.len request then r.len else request in
      let head = add_size r.head n in
      let r' : RingBuffer = record r {
        head = if leb r.cap head then sub_size head r.cap else head;
        len = sub_size r.len n;
      } in
      let taken : remove r request ≡ (n, r') = ground arith in
      rw taken (
        ground arith,
        contents-drop r r' n v (ground arith) refl refl (ground arith) (ground arith),
        ground arith,
      )
]

-- ct_rbuf_read_ptr on a valid buffer: no span when the buffer is empty; else a span of at least one
-- byte inside the memory, which holds as many bytes from the front of the contents, in order.
pub read_ptr_lem :
    (r : RingBuffer)
    → IsValid r
    → ((r.len ≡ 0) × (read_ptr r ≡ none))
      ⊎ ((i : ℕ) × (k : ℕ) × (read_ptr r ≡ some (i, k))
          × (0 < k)
          × (i + k ≤ r.cap)
          × (slice r.store i k ≡ take k (contents r)))
unfolding read_ptr
read_ptr_lem r v = elim (ℕ_discrete r.len 0) [
  | yes e ↦ inl (e, ground arith)
  | no ne ↦ inr (r.head, span, ground arith, ground arith, ground arith, handled span (omega arith))
]
  where
    span : ℕ
    span = if leb r.len (r.cap - r.head) then r.len else r.cap - r.head

    handled : (n : ℕ) → n ≤ span → slice r.store r.head n ≡ take n (contents r)
    handled zero p = refl
    handled (suc n) p =
        let held : suc n ≤ r.len = ground arith in
        flat-tabulate r (suc n) v (omega arith) held (ground arith)
        ∙ sym (take_of_tabulate (suc n) r.len (byte_at r) held)

-- Filling a part `n` of the span of ct_rbuf_write_ptr with bytes and calling ct_rbuf_commit with `n`,
-- on a valid buffer, puts exactly those bytes behind the contents and keeps the buffer valid.
pub commit-write_ptr :
    (r : RingBuffer) (i k : ℕ) (src : Bytes)
    → IsValid r
    → write_ptr r ≡ some (i, k)
    → length src ≤ k
    → let (n, r') = commit (record r { store = splice r.store i src }) (length src) in
      (n ≡ length src) × (contents r' ≡ contents r ++ src) × IsValid r'
unfolding write_ptr commit
commit-write_ptr r i k [] v h l = ground (arith, splice-nil r.store i, append-nil (contents r))
commit-write_ptr r i k (x ∷ xs) v h l =
    let src = x ∷ xs in
    let n = length src in
    let at : i ≡ r.tail = ground arith in
    let room : r.len + n ≤ r.cap = ground arith in
    let flat_in : r.tail + n ≤ r.cap = ground arith in
    let more : 0 < n = omega arith in
    let whole : take n src ≡ src = take-length n src (omega arith) in
    let start : RingBuffer = record r { store = splice r.store i src } in
    let tail = add_size r.tail n in
    let r' : RingBuffer = record start {
      tail = if leb r.cap tail then sub_size tail r.cap else tail;
      len = add_size r.len n;
    } in
    let same : splice r.store i src ≡ (copy_in r src n).0 =
      ap₂ (splice r.store) at (sym whole)
      ∙ sym (ap (λ t. t.0) (copy_in-flat r src n v room more (omega arith) flat_in)) in
    let taken : commit start n ≡ (n, r') = ground arith in
    rw taken (
      refl,
      copied r src n v room more (omega arith) r' same refl refl (omega arith)
          ∙ ap (◌++◌ (contents r)) whole,
      ground (arith, length-splice r.store i src),
    )

-- ct_rbuf_commit with a request so large that its sum with the number of bytes held wraps round: the
-- request is not cut down to the space left. The call answers the whole request, more than the
-- capacity, and the buffer ends up with fewer readable bytes than before.
pub commit-overflow :
    (r : RingBuffer) (request : ℕ)
    → IsValid r
    → request < size_mod
    → size_mod ≤ request + r.len
    → let (n, r') = commit r request in (n ≡ request) × (r.cap < n) × (r'.len < r.len)
unfolding commit
commit-overflow r request v h k = ground arith
