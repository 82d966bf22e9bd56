-- ===== src/Bytes/ByteBuffer/RoundTrip.antt =====
-- Words in a byte buffer: the layout in memory for each byte order and word swap, on every host, and
-- what the reading calls give back.
use coter.Base.{
  ℕ, ◌+◌, ◌-◌, ◌≤◌, ◌<◌, ◌^◌, ◌≡◌, refl, sym, ap, ap₂, ◌∙◌, arith, Bool, false, Bytes, slice,
  splice, slice-splice_self, ltb, if◌then◌else◌, ◌⊎◌, inl, inr, true, lt-total,
}
use coter.Encoding.Binary.{Endian, from_memory, le_bytes}
use coter.Bytes.ByteBuffer.{ByteBuffer, writable, readable, advance, seek}
use coter.Bytes.ByteBuffer.Words.{put_word, take_word}
use coter.Bytes.ByteBuffer.Words.{put_u16, put_u32, put_u64, take_u16, take_u32, take_u64}
use coter.Bytes.ByteBuffer.Inv.{IsValid}
use coter.Bytes.ByteBuffer.Layout.{
  layout, HasLayout, order16-HasLayout, order32-HasLayout, order64-HasLayout,
}

-- Going back, and taking a word, where nothing stops either.
seek_inside :
    (t : ByteBuffer) (p : ℕ) → p ≤ t.len → p < 2 ^ 32 → (seek t p).1 ≡ record t { pos = p }
unfolding seek
seek_inside t p h k =
    let inside : ltb t.len p ≡ false = ground arith in
    rw inside (ap (λ (q : ℕ). record t { pos = q }) (omega arith))

take_word_inside :
    (host : Endian) (n : ℕ) (order : Endian → Bool → ℕ → ℕ) (t : ByteBuffer) (xs : Bytes)
    → t.pos + n ≤ t.len
    → t.len < 2 ^ 32
    → slice t.store t.pos n ≡ xs
    → take_word host n order t
      ≡ (order t.endian t.hlswap (from_memory host xs), record t { pos = t.pos + n })
unfolding take_word
take_word_inside host n order t xs h k e =
    let held : ltb (readable t) n ≡ false = ground arith in
    rw held (
      ap₂
        (λ (ys : Bytes) (q : ℕ).
          (order t.endian t.hlswap (from_memory host ys), record t { pos = q }))
        e (omega arith))

module _ (host : Endian) {n bound : ℕ} {order : Endian → Bool → ℕ → ℕ}
    {shape : Endian → Bool → Bytes → Bytes} (l : HasLayout host n bound order shape)
    (s : ByteBuffer) (v : ℕ) (valid : IsValid s) (fits : v < bound) (room : n ≤ s.cap - s.pos) where
  abbrev image : Bytes
  image = shape s.endian s.hlswap (le_bytes n v)

  put_word-image :
      put_word host n order s v ≡ advance (record s { store = splice s.store s.pos image }) n
  unfolding put_word
  put_word-image =
      let open_ : ltb (writable s) n ≡ false = ground arith in
      rw open_ (
        ap (λ xs. advance (record s { store = splice s.store s.pos xs }) n)
          (l.stored s.endian s.hlswap v fits))

  -- The word stands in the memory by its layout, behind what was written before.
  put_word_lem :
      ((put_word host n order s v).store ≡ splice s.store s.pos image)
      × ((put_word host n order s v).pos ≡ s.pos + n)
      × ((put_word host n order s v).overflow ≡ s.overflow)
  put_word_lem = rw put_word-image (refl, ground arith, refl)

  -- After going back to where the word was put, taking a word gives it and leads back.
  take-put :
      take_word host n order (seek (put_word host n order s v) s.pos).1
      ≡ (v, put_word host n order s v)
  take-put = rw put_word-image (
      let after = advance (record s { store = splice s.store s.pos image }) n in
      let sized = l.sized s.endian s.hlswap v in
      let moved : after.pos ≡ s.pos + n = ground arith in
      let there : after.len ≡ (if ltb s.len (s.pos + n) then s.pos + n else s.len) = ground arith in
      ap (take_word host n order) (seek_inside after s.pos (ground arith) (omega arith))
      ∙ take_word_inside host n order (record after { pos = s.pos }) image (ground arith)
          (ground arith) (slice-splice_self s.store s.pos image n sized (omega arith))
      ∙ ap₂ (λ (x q : ℕ). (x, record after { pos = q })) (l.loaded s.endian s.hlswap v fits)
          (sym moved))

module _ (host : Endian) {n bound : ℕ} {order : Endian → Bool → ℕ → ℕ}
    {shape : Endian → Bool → Bytes → Bytes} (l : HasLayout host n bound order shape)
    (s : ByteBuffer) (v : ℕ) (valid : IsValid s) (fits : v < bound) (some_bytes : 0 < n) where
  put_word-full : s.cap < s.pos + n → put_word host n order s v ≡ record s { overflow = true }
  unfolding put_word
  put_word-full full =
      let no_room : ltb (writable s) n ≡ true = ground (arith, valid) in rw no_room refl

  put_word_cases :
      let a = put_word host n order s v in
      ((s.pos + n ≤ s.cap)
        × (a.store ≡ splice s.store s.pos (shape s.endian s.hlswap (le_bytes n v)))
        × (a.pos ≡ s.pos + n)
        × (a.overflow ≡ s.overflow))
      ⊎ ((s.cap < s.pos + n) × (a ≡ record s { overflow = true }))
  put_word_cases = elim (lt-total s.cap (s.pos + n)) [
    | inl full ↦ inr (full, put_word-full full)
    | inr room ↦
        let (stored, moved, same) = put_word_lem host l s v valid fits (omega arith) in
        inl (room, stored, moved, same)
  ]

  take-put_cases :
      let a = put_word host n order s v in
      ((s.pos + n ≤ s.cap) × (take_word host n order (seek a s.pos).1 ≡ (v, a)))
      ⊎ ((s.cap < s.pos + n) × (a ≡ record s { overflow = true }))
  take-put_cases = elim (lt-total s.cap (s.pos + n)) [
    | inl full ↦ inr (full, put_word-full full)
    | inr room ↦ inl (room, take-put host l s v valid fits (omega arith))
  ]

-- Putting a 16-, 32- or 64-bit word into a valid buffer, on either host. If the bytes of that width are
-- left, it writes the word's bytes at the position in the order that the buffer's byte order and word
-- swap ask for (16-bit words ignore the swap), moves the position behind them and leaves the overflow
-- flag as it was. If they are not left, it sets the overflow flag and changes nothing else.
pub put_layout :
    (host : Endian) (s : ByteBuffer) (u v w : ℕ)
    → IsValid s
    → u < 2 ^ 16
    → v < 2 ^ 32
    → w < 2 ^ 64
    → let a = put_u16 host s u in
      let b = put_u32 host s v in
      let c = put_u64 host s w in
      (((s.pos + 2 ≤ s.cap)
          × (a.store ≡ splice s.store s.pos (layout s.endian false (le_bytes 2 u)))
          × (a.pos ≡ s.pos + 2)
          × (a.overflow ≡ s.overflow))
        ⊎ ((s.cap < s.pos + 2) × (a ≡ record s { overflow = true })))
      × (((s.pos + 4 ≤ s.cap)
            × (b.store ≡ splice s.store s.pos (layout s.endian s.hlswap (le_bytes 4 v)))
            × (b.pos ≡ s.pos + 4)
            × (b.overflow ≡ s.overflow))
          ⊎ ((s.cap < s.pos + 4) × (b ≡ record s { overflow = true })))
      × (((s.pos + 8 ≤ s.cap)
            × (c.store ≡ splice s.store s.pos (layout s.endian s.hlswap (le_bytes 8 w)))
            × (c.pos ≡ s.pos + 8)
            × (c.overflow ≡ s.overflow))
          ⊎ ((s.cap < s.pos + 8) × (c ≡ record s { overflow = true })))
unfolding put_u16 put_u32 put_u64
put_layout host s u v w h hu hv hw = (
  put_word_cases host (order16-HasLayout host) s u h hu (omega arith),
  put_word_cases host (order32-HasLayout host) s v h hv (omega arith),
  put_word_cases host (order64-HasLayout host) s w h hw (omega arith),
)

-- A 16-, 32- or 64-bit word put into a valid buffer, for each byte order, word swap and host. If the
-- bytes of that width are left, it is taken back unchanged after seeking to where it was put, and the
-- buffer is then as it was after the put. If they are not left, the put only sets the overflow flag.
pub take_of_put :
    (host : Endian) (s : ByteBuffer) (u v w : ℕ)
    → IsValid s
    → u < 2 ^ 16
    → v < 2 ^ 32
    → w < 2 ^ 64
    → let a = put_u16 host s u in
      let b = put_u32 host s v in
      let c = put_u64 host s w in
      (((s.pos + 2 ≤ s.cap) × (take_u16 host (seek a s.pos).1 ≡ (u, a)))
        ⊎ ((s.cap < s.pos + 2) × (a ≡ record s { overflow = true })))
      × (((s.pos + 4 ≤ s.cap) × (take_u32 host (seek b s.pos).1 ≡ (v, b)))
          ⊎ ((s.cap < s.pos + 4) × (b ≡ record s { overflow = true })))
      × (((s.pos + 8 ≤ s.cap) × (take_u64 host (seek c s.pos).1 ≡ (w, c)))
          ⊎ ((s.cap < s.pos + 8) × (c ≡ record s { overflow = true })))
unfolding put_u16 put_u32 put_u64 take_u16 take_u32 take_u64
take_of_put host s u v w h hu hv hw = (
  take-put_cases host (order16-HasLayout host) s u h hu (omega arith),
  take-put_cases host (order32-HasLayout host) s v h hv (omega arith),
  take-put_cases host (order64-HasLayout host) s w h hw (omega arith),
)
