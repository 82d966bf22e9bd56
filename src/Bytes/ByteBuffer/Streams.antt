-- ===== src/Bytes/ByteBuffer/Streams.antt =====
-- Blocks of bytes in a byte buffer: writing, reading back, searching, compacting and viewing.
use native.Mathlib.Decide.{ℕ_discrete, dec_lt}
use coter.Base.{
  ℕ, zero, suc, ◌+◌, ◌-◌, ◌≤◌, ◌<◌, ◌^◌, ◌≡◌, ◌≢◌, ◌⊎◌, inl, inr, refl, sym, ap, ◌∙◌, arith, min,
  true, false, none, some, pos, minus_one, to_int, [], ◌∷◌, Bytes, length, length-append, take,
  drop, ◌++◌, length-slice, length-splice, slice, splice, slice-splice_self, splice-nil, ltb, ◌==◌,
  if◌then◌else◌,
}
use coter.Bytes.ByteBuffer.{ByteBuffer, writable, readable, limit, compact, since}
use coter.Bytes.ByteBuffer.Blocks.{memchr, find, put_bytes, take_bytes}
use coter.Bytes.ByteBuffer.Inv.{IsValid}

-- the bytes from the position up to the length
abbrev pub unread : ByteBuffer → Bytes
unread s = slice s.store s.pos (s.len - s.pos)

-- ct_bytes_put_bytes from a source of at least the requested length, on a valid buffer: as many bytes
-- as are requested and have room up to the capacity are copied to the position, their number is the
-- result, the position moves behind them, the length is drawn along where it is passed, and the
-- overflow flag is set exactly if the request was cut or it was set before.
pub put_bytes_lem :
    (s : ByteBuffer) (src : Bytes) (request : ℕ)
    → IsValid s
    → request ≤ length src
    → let n = min request (s.cap - s.pos) in
      let (rc, t) = put_bytes s (some src) request in
      (rc ≡ to_int n)
      × (t.store ≡ splice s.store s.pos (take n src))
      × (t.pos ≡ s.pos + n)
      × (t.len ≡ (if ltb s.len (s.pos + n) then s.pos + n else s.len))
      × (t.overflow ≡ (if ltb (s.cap - s.pos) request then true else s.overflow))
unfolding put_bytes
put_bytes_lem s src request v h =
    let cut : (limit s (writable s) request).0 ≡ min request (s.cap - s.pos) = ground arith in
    elim (ℕ_discrete (min request (s.cap - s.pos)) 0) [
      | yes e ↦
          let same : splice s.store s.pos (take (min request (s.cap - s.pos)) src) ≡ s.store =
            ap (λ k. splice s.store s.pos (take k src)) e ∙ splice-nil s.store s.pos in
          ground (arith, cut, same)
      | no ne ↦ ground (arith, cut)
    ]

-- ct_bytes_take_bytes into a destination, on a valid buffer: as many bytes as are requested and unread
-- are delivered in order, their number is the result, the position moves behind them, and the
-- overflow flag is set exactly if the request was cut or it was set before. The memory, the length and
-- the capacity stay.
pub take_bytes_lem :
    (s : ByteBuffer) (request : ℕ)
    → IsValid s
    → let n = min request (s.len - s.pos) in
      let (rc, out, t) = take_bytes s true request in
      (rc ≡ to_int n)
      × (out ≡ (if n == 0 then none else some (slice s.store s.pos n)))
      × (t ≡ record s {
        pos = s.pos + n;
        overflow = if ltb (s.len - s.pos) request then true else s.overflow;
      })
unfolding take_bytes
take_bytes_lem s request v = ground arith

-- ct_bytes_compact on a valid buffer: the unread bytes are the same and now begin at position 0, the
-- length is their number, the capacity stays, and the buffer stays valid.
pub compact_lem :
    (s : ByteBuffer)
    → IsValid s
    → let t = compact s in
      (unread t ≡ unread s) × (t.pos ≡ 0) × (t.len ≡ s.len - s.pos) × (t.cap ≡ s.cap) × IsValid t
unfolding compact
compact_lem s v =
    let moved = slice s.store s.pos (s.len - s.pos) in
    let count : readable s ≡ s.len - s.pos = omega arith in
    let size : s.len - s.pos ≡ length moved =
      omega (arith, length-slice s.store s.pos (s.len - s.pos)) in
    let back : slice (splice s.store 0 moved) 0 (s.len - s.pos) ≡ moved =
      slice-splice_self s.store 0 moved (s.len - s.pos) size (omega arith) in
    ground (arith, count, back, length-splice s.store 0 moved)

-- ct_bytes_since on a valid buffer: a view that is made begins inside the memory, covers the rest of
-- the capacity, keeps its length within that, starts at position 0 with no error, and ends where
-- it was asked to (at the buffer's length, if the end is 0).
pub since_lem :
    (s : ByteBuffer) (start end at : ℕ) (view : ByteBuffer)
    → IsValid s
    → since s start end ≡ some (at, view)
    → (at ≡ start)
      × (start + view.cap ≡ s.cap)
      × (view.len ≤ view.cap)
      × (start + view.len ≡ (if end == 0 then s.len else end))
      × (view.pos ≡ 0)
      × (view.overflow ≡ false)
unfolding since
since_lem s start end at view v h = ground arith

-- none of the bytes is `bt`
abbrev pub Avoids : ℕ → Bytes → Type 0
Avoids bt [] = Unit
Avoids bt (x ∷ xs) = (x ≢ bt) × Avoids bt xs

-- What comes before the first match, and the match.
memchr_lem :
    (bt : ℕ) (xs : Bytes)
    → ((memchr bt xs ≡ none) × Avoids bt xs)
      ⊎ ((before : Bytes) × (after : Bytes) × (memchr bt xs ≡ some (length before))
          × (xs ≡ before ++ bt ∷ after)
          × Avoids bt before)
unfolding memchr
memchr_lem bt [] = inl (refl, tt)
memchr_lem bt (x ∷ xs) = elim (ℕ_discrete x bt) [
  | yes e ↦ inr ([], xs, ground arith, ap (λ y. y ∷ xs) e, tt)
  | no ne ↦ elim (memchr_lem bt xs) [
    | inl (h, k) ↦ inl (ground arith, (ne, k))
    | inr (before, after, h, split, k) ↦
        inr (x ∷ before, after, ground arith, ap (◌∷◌ x) split, (ne, k))
  ]
]

drop-nil : (k : ℕ) (xs : Bytes) → xs ≡ [] → drop k xs ≡ []
drop-nil zero xs e = e
drop-nil (suc k) [] e = refl
drop-nil (suc k) (x ∷ xs) e = cc

take-nil : (n : ℕ) → [] ≡ take {A = ℕ} n []
take-nil zero = refl
take-nil (suc n) = refl

drop-take : (k n : ℕ) (xs : Bytes) → drop k (take n xs) ≡ take (n - k) (drop k xs)
drop-take zero n xs = ap (λ m. take m xs) (omega arith)
drop-take (suc k) zero xs =
    let e : 0 - suc k ≡ 0 = omega arith in sym (ap (λ m. take m (drop (suc k) xs)) e)
drop-take (suc k) (suc n) [] = take-nil (suc n - suc k)
drop-take (suc k) (suc n) (x ∷ xs) = drop-take k n xs ∙ ap (λ m. take m (drop k xs)) (omega arith)

drop-drop : (k p : ℕ) (xs : Bytes) → drop k (drop p xs) ≡ drop (p + k) xs
drop-drop k zero xs = ap (λ m. drop m xs) (omega arith)
drop-drop k (suc p) [] = drop-nil k [] refl ∙ sym (drop-nil (suc p + k) [] refl)
drop-drop k (suc p) (x ∷ xs) =
    let e : suc (p + k) ≡ suc p + k = omega arith in drop-drop k p xs ∙ ap (λ m. drop m (x ∷ xs)) e

drop-slice : (k : ℕ) (xs : Bytes) (p n : ℕ) → drop k (slice xs p n) ≡ slice xs (p + k) (n - k)
drop-slice k xs p n = drop-take k n (drop p xs) ∙ ap (take (n - k)) (drop-drop k p xs)

-- ct_bytes_find on a valid buffer of a capacity below 2^31, over the unread bytes from `offset` places
-- on: either none of them is the one looked for, and it answers -1; or it answers the number of those
-- that come before the first such byte, which is the distance from the position plus `offset`.
pub find_lem :
    (s : ByteBuffer) (bt offset : ℕ)
    → IsValid s
    → s.cap < 2 ^ 31
    → ((find s bt offset ≡ minus_one) × Avoids bt (drop offset (unread s)))
      ⊎ ((before : Bytes) × (after : Bytes) × (drop offset (unread s) ≡ before ++ bt ∷ after)
          × Avoids bt before
          × (find s bt offset ≡ pos (length before)))
unfolding find
find_lem s bt offset v small = elim (dec_lt offset (s.len - s.pos)) [
  | no h ↦
      let e : s.len - s.pos - offset ≡ 0 = omega arith in
      let nothing : drop offset (unread s) ≡ [] =
        drop-slice offset s.store s.pos (s.len - s.pos) ∙ ap (slice s.store (s.pos + offset)) e in
      inl (ground arith, rw nothing tt)
  | yes h ↦
      let count : readable s ≡ s.len - s.pos = omega arith in
      let region = slice s.store (s.pos + offset) (readable s - offset) in
      let same : drop offset (unread s) ≡ region =
        drop-slice offset s.store s.pos (s.len - s.pos)
        ∙ ap (λ n. slice s.store (s.pos + offset) (n - offset)) (sym count) in
      elim (memchr_lem bt region) [
        | inl (e, k) ↦ inl (ground (arith, e), rw same k)
        | inr (before, after, e, split, k) ↦
            let fits : length before < 2 ^ 31 = omega (
              arith,
              length-slice s.store (s.pos + offset) (readable s - offset),
              ap length split,
              length-append before (bt ∷ after),
            ) in
            inr (before, after, same ∙ split, k, ground (arith, e))
      ]
]
