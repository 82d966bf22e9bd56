-- ===== src/Bytes/RingBuffer/Write.antt =====
-- ct_rbuf_write appends.
use native.Mathlib.Decide.{ℕ_discrete}
use coter.Base.{
  ℕ, ◌+◌, ◌-◌, ◌≤◌, ◌<◌, ◌≡◌, ◌++◌, ap, ap₂, ◌∙◌, sym, arith, some, min, length, Bytes, get_or,
  take, slice, splice, length-take, length-slice, length-splice, get_or-splice, get_or-take,
  get_or-slice, ltb, leb, ◌==◌, ◌&&◌, if◌then◌else◌, tabulate-add, tabulate_ext, take-tabulate,
  wrap, tabulate, refl, add_size, append-nil, lt-total, inl, inr,
}
use coter.Bytes.RingBuffer.{RingBuffer, copy_in, clip, write}
use coter.Bytes.RingBuffer.Inv.{IsValid, max_object, byte_at, contents}

module _ (r : RingBuffer) (src : Bytes) (n : ℕ) (v : IsValid r) (room : r.len + n ≤ r.cap)
    (pos : 0 < n) (given : n ≤ length src) where
  -- the bytes up to the end of the memory, and those that go to its start
  abbrev first : ℕ
  first = r.cap - r.tail

  abbrev pub flat : Bytes
  flat = splice r.store r.tail (take n src)

  abbrev upper : Bytes
  upper = splice r.store r.tail (take first src)

  abbrev round : Bytes
  round = splice upper 0 (slice src first (n - first))

  pub copy_in-flat : r.tail + n ≤ r.cap → copy_in r src n ≡ (flat, r.tail + n)
  unfolding copy_in
  copy_in-flat h = ground arith

  copy_in-round : r.cap < r.tail + n → copy_in r src n ≡ (round, n - first)
  unfolding copy_in
  copy_in-round h = ground arith

  length-copy_in : length (copy_in r src n).0 ≡ length r.store
  length-copy_in = ground (
    arith,
    length-splice r.store r.tail (take n src),
    length-splice r.store r.tail (take first src),
    length-splice upper 0 (slice src first (n - first)),
    lt-total r.cap (r.tail + n),
    copy_in-flat,
    copy_in-round,
  )

  flat-at :
      (j : ℕ)
      → r.tail + n ≤ r.cap
      → get_or flat j 0 ≡ (
          if leb r.tail j && ltb j (r.tail + n)
          then get_or src (j - r.tail) 0
          else get_or r.store j 0)
  flat-at j h = ground (
    arith,
    get_or-splice r.store r.tail (take n src) j,
    length-take n src,
    get_or-take n src (j - r.tail) 0,
  )

  round-at :
      (j : ℕ)
      → r.cap < r.tail + n
      → j < r.cap
      → get_or round j 0 ≡ (
          if leb r.tail j
          then get_or src (j - r.tail) 0
          else if ltb j (n - first)
          then get_or src (first + j) 0
          else get_or r.store j 0)
  round-at j h k = ground (
    arith,
    get_or-splice upper 0 (slice src first (n - first)) j,
    length-slice src first (n - first),
    get_or-slice src first (n - first) j,
    length-splice r.store r.tail (take first src),
    get_or-splice r.store r.tail (take first src) j,
    length-take first src,
    get_or-take first src (j - r.tail) 0,
  )

  -- The `n` places past the end hold the source, the others what they held.
  copy_in-new :
      (i : ℕ)
      → i < n
      → get_or (copy_in r src n).0 (wrap r.cap (r.head + (r.len + i))) 0 ≡ get_or src i 0
  copy_in-new i h = elim (lt-total r.cap (r.tail + n)) [
    | inl p ↦ rw (copy_in-round p) (ground (arith, round-at (wrap r.cap (r.head + (r.len + i))) p))
    | inr p ↦ rw (copy_in-flat p) (ground (arith, flat-at (wrap r.cap (r.head + (r.len + i))) p))
  ]

  copy_in-old :
      (i : ℕ) → i < r.len → get_or (copy_in r src n).0 (wrap r.cap (r.head + i)) 0 ≡ byte_at r i
  copy_in-old i h = elim (lt-total r.cap (r.tail + n)) [
    | inl p ↦ rw (copy_in-round p) (ground (arith, round-at (wrap r.cap (r.head + i)) p))
    | inr p ↦ rw (copy_in-flat p) (ground (arith, flat-at (wrap r.cap (r.head + i)) p))
  ]

  tail-copy_in :
      (if (copy_in r src n).1 == r.cap then 0 else (copy_in r src n).1)
      ≡ wrap r.cap (r.head + (r.len + n))
  unfolding copy_in
  tail-copy_in = ground arith

  -- The memory after the copy, read as `len + n` bytes, is the old contents and then the source.
  pub copied :
      (r' : RingBuffer)
      → r'.store ≡ (copy_in r src n).0
      → r'.cap ≡ r.cap
      → r'.head ≡ r.head
      → r'.len ≡ r.len + n
      → contents r' ≡ contents r ++ take n src
  copied r' s c h l =
      ap (λ k. tabulate k (byte_at r')) l
      ∙ tabulate-add r.len n (byte_at r')
      ∙ ap₂ ◌++◌
          (tabulate_ext r.len (byte_at r') (byte_at r) λ i p. ground (arith, copy_in-old i p))
          (tabulate_ext n (λ i. byte_at r' (r.len + i)) (λ i. get_or src i 0)
              (λ i p. ground (arith, copy_in-new i p))
            ∙ sym (take-tabulate n src 0 given))

clip_lem :
    (r : RingBuffer) (request : ℕ)
    → IsValid r
    → request < max_object
    → clip r request ≡ min request (r.cap - r.len)
clip_lem r request v h = ground arith

-- ct_rbuf_write from a source of at least the requested length: on a valid buffer it takes as many
-- bytes as are requested and fit, answers their number, puts exactly those bytes of the source, in
-- order, behind the contents, and keeps the buffer valid.
pub write_lem :
    (r : RingBuffer) (src : Bytes) (request : ℕ)
    → IsValid r
    → request ≤ length src
    → length src < max_object
    → let (n, r') = write r (some src) request in
      (n ≡ min request (r.cap - r.len)) × IsValid r' × (contents r' ≡ contents r ++ take n src)
unfolding write
write_lem r src request v h k = elim (ℕ_discrete (clip r request) 0) [
  | yes e ↦ ground (arith, clip_lem r request v, append-nil (contents r))
  | no ne ↦
      let n = clip r request in
      let room : r.len + n ≤ r.cap = omega (arith, clip_lem r request v) in
      let given : n ≤ length src = omega (arith, clip_lem r request v) in
      let more : 0 < n = omega arith in
      let (written, tail) = copy_in r src n in
      let r' : RingBuffer = record r {
        store = written;
        tail = if tail == r.cap then 0 else tail;
        len = add_size r.len n;
      } in
      let taken : write r (some src) request ≡ (n, r') = ground arith in
      rw taken (
        clip_lem r request v (omega arith),
        ground (
          arith,
          length-copy_in r src n v room more given,
          tail-copy_in r src n v room more given,
        ),
        copied r src n v room more given r' refl refl refl (omega arith),
      )
]
