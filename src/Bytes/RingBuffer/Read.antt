-- ===== src/Bytes/RingBuffer/Read.antt =====
-- ct_rbuf_read and ct_rbuf_peek deliver the oldest bytes.
use native.Mathlib.Decide.{ℕ_discrete}
use coter.Base.{
  ℕ, ◌+◌, ◌-◌, ◌≤◌, ◌<◌, ◌≡◌, ◌++◌, refl, ap, ap₂, ◌∙◌, sym, arith, min, length, Bytes, get_or,
  take, drop, slice, length-append, length-slice, length-tabulate, get_or-slice, get_or-append,
  get_or-tabulate, list_ext, ltb, ◌==◌, if◌then◌else◌, tabulate, take_of_tabulate, drop-tabulate,
  tabulate_ext, wrap, lt-total, inl, inr,
}
use coter.Bytes.RingBuffer.{RingBuffer, copy_out, read, peek}
use coter.Bytes.RingBuffer.Inv.{IsValid, byte_at, contents}

module _ (r : RingBuffer) (n : ℕ) (v : IsValid r) (some_bytes : 0 < n) (held : n ≤ r.len) where
  abbrev first : ℕ
  first = r.cap - r.head

  copy_out-flat : r.head + n ≤ r.cap → copy_out r n ≡ (slice r.store r.head n, r.head + n)
  unfolding copy_out
  copy_out-flat h = ground arith

  copy_out-round :
      r.cap < r.head + n
      → copy_out r n ≡ (slice r.store r.head first ++ slice r.store 0 (n - first), n - first)
  unfolding copy_out
  copy_out-round h = ground arith

  head-copy_out :
      (if (copy_out r n).1 == r.cap then 0 else (copy_out r n).1) ≡ wrap r.cap (r.head + n)
  unfolding copy_out
  head-copy_out = ground arith

  pub flat-tabulate : r.head + n ≤ r.cap → slice r.store r.head n ≡ tabulate n (byte_at r)
  flat-tabulate h =
      list_ext _ _ 0 (omega (arith, length-slice r.store r.head n, length-tabulate n (byte_at r)))
        λ i p. ground (
          arith,
          length-slice r.store r.head n,
          get_or-slice r.store r.head n i,
          get_or-tabulate n (byte_at r) i 0,
        )

  round-tabulate :
      r.cap < r.head + n
      → slice r.store r.head first ++ slice r.store 0 (n - first) ≡ tabulate n (byte_at r)
  round-tabulate h = list_ext _ _ 0 (omega (arith, sizes, length-tabulate n (byte_at r))) λ i p.
      ground (
        arith,
        sizes,
        length-slice r.store r.head first,
        get_or-append upper lower i 0,
        get_or-slice r.store r.head first i,
        get_or-slice r.store 0 (n - first) (i - first),
        get_or-tabulate n (byte_at r) i 0,
      )
    where
      upper : Bytes
      upper = slice r.store r.head first

      lower : Bytes
      lower = slice r.store 0 (n - first)

      sizes : length (upper ++ lower) ≡ n
      sizes = omega (
        arith,
        length-append upper lower,
        length-slice r.store r.head first,
        length-slice r.store 0 (n - first),
      )

  -- The bytes copied out are the first `n` of the contents.
  copy_out-take : (copy_out r n).0 ≡ take n (contents r)
  copy_out-take =
      elim (lt-total r.cap (r.head + n)) [
        | inl p ↦ ap (λ t. t.0) (copy_out-round p) ∙ round-tabulate p
        | inr p ↦ ap (λ t. t.0) (copy_out-flat p) ∙ flat-tabulate p
      ]
      ∙ sym (take_of_tabulate n r.len (byte_at r) held)

-- Moving `head` on by `n` bytes drops the first `n` of the contents.
pub contents-drop :
    (r r' : RingBuffer) (n : ℕ)
    → IsValid r
    → n ≤ r.len
    → r'.store ≡ r.store
    → r'.cap ≡ r.cap
    → r'.head ≡ wrap r.cap (r.head + n)
    → r'.len ≡ r.len - n
    → contents r' ≡ drop n (contents r)
contents-drop r r' n v h s c e l =
    ap (λ k. tabulate k (byte_at r')) l
    ∙ tabulate_ext (r.len - n) (byte_at r') (λ i. byte_at r (n + i))
        (λ i p. ap₂ (λ b k. get_or b k 0) s (ground arith))
    ∙ sym (drop-tabulate n r.len (byte_at r) h)

-- ct_rbuf_read into a destination that is not null: on a valid buffer it delivers as many bytes as
-- are requested and held, the oldest ones in order, answers their number, leaves the others as the
-- contents, and keeps the buffer valid. ct_rbuf_peek answers and delivers the same.
pub read_lem :
    (r : RingBuffer) (request : ℕ)
    → IsValid r
    → let (n, out, r') = read r request in
      (n ≡ min request r.len)
      × (out ≡ take n (contents r))
      × (contents r' ≡ drop n (contents r))
      × IsValid r'
      × (peek r request ≡ (n, out))
unfolding read peek
read_lem r request v = elim (ℕ_discrete (min request r.len) 0) [
  | yes e ↦ ground arith
  | no ne ↦
      let n = if ltb r.len request then r.len else request in
      let size : n ≡ min request r.len = ground arith in
      let held : n ≤ r.len = omega arith in
      let more : 0 < n = omega arith in
      let (out, head) = copy_out r n in
      let r' : RingBuffer = record r {
        head = if head == r.cap then 0 else head;
        len = r.len - n;
      } in
      let moved = head-copy_out r n v more held in
      let taken : read r request ≡ (n, out, r') = ground arith in
      let peeked : peek r request ≡ (n, out) = ground arith in
      rw (taken, peeked)
        (
          size,
          copy_out-take r n v more held,
          contents-drop r r' n v held refl refl moved refl,
          ground arith,
          refl,
        )
]
