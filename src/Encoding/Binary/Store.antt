-- ===== src/Encoding/Binary/Store.antt =====
-- Words in memory: what the loads and stores of binary.h read and write, on every host.
use coter.Base.{
  ℕ, zero, suc, ◌+◌, ◌*◌, ◌/◌, ◌^◌, ◌<◌, ◌≤◌, ◌≡◌, refl, sym, ap, ap₂, ◌∙◌, arith, [], ◌∷◌, Bytes,
  length, splice, slice, slice-splice_self,
}
use mathlib.Core.List.{reverse}
use coter.Encoding.Binary.{
  le_set_u16, le_set_u32, le_set_u64, be_set_u16, be_set_u32, be_set_u64, le_get_u16, le_get_u32,
  le_get_u64, be_get_u16, be_get_u32, be_get_u64,
}
use coter.Encoding.Binary.{
  if_big, if_little, from_memory, Endian, big, little, bswap16, bswap32, bswap64, le_bytes,
  le_value,
}
use coter.Encoding.Binary.Swap.{AllBytes, bswap16_lem, bswap32_lem, bswap64_lem}

pub length-le_bytes : (n v : ℕ) → length (le_bytes n v) ≡ n
length-le_bytes zero v = refl
length-le_bytes (suc n) v = ap suc (length-le_bytes n (v / 256))

pub le_bytes-AllBytes : (n v : ℕ) → AllBytes (le_bytes n v)
le_bytes-AllBytes zero v = tt
le_bytes-AllBytes (suc n) v = (omega arith, le_bytes-AllBytes n (v / 256))

pub le_bytes-le_value : (xs : Bytes) → AllBytes xs → le_bytes (length xs) (le_value xs) ≡ xs
le_bytes-le_value [] h = refl
le_bytes-le_value (x ∷ xs) h =
    let up : (x + 256 * le_value xs) / 256 ≡ le_value xs = omega arith in
    ap₂ ◌∷◌ (omega arith) (ap (le_bytes (length xs)) up ∙ le_bytes-le_value xs h.1)

pub le_value2 : (v : ℕ) → v < 2 ^ 16 → le_value (le_bytes 2 v) ≡ v
le_value2 v h = omega arith

pub le_value4 : (v : ℕ) → v < 2 ^ 32 → le_value (le_bytes 4 v) ≡ v
le_value4 v h = omega arith

pub le_value8 : (v : ℕ) → v < 2 ^ 64 → le_value (le_bytes 8 v) ≡ v
le_value8 v h = omega arith

-- Bytes are read off a word that is known by its bytes.
pub bytes_of :
    (xs : Bytes) {n v : ℕ} → AllBytes xs → length xs ≡ n → v ≡ le_value xs → le_bytes n v ≡ xs
bytes_of xs h e p = ap₂ le_bytes (sym e) p ∙ le_bytes-le_value xs h

-- On a list of so many bytes a swap of the word is the reversal of the list.
pub bswap16_load :
    (xs : Bytes) → AllBytes xs → length xs ≡ 2 → bswap16 (le_value xs) ≡ le_value (reverse xs)
bswap16_load (a ∷ b ∷ []) h e = bswap16_lem a b h
bswap16_load _ h e = absurd (omega arith)

pub bswap32_load :
    (xs : Bytes) → AllBytes xs → length xs ≡ 4 → bswap32 (le_value xs) ≡ le_value (reverse xs)
bswap32_load (a ∷ b ∷ c ∷ d ∷ []) h e = bswap32_lem a b c d h
bswap32_load _ h e = absurd (omega arith)

pub bswap64_load :
    (xs : Bytes) → AllBytes xs → length xs ≡ 8 → bswap64 (le_value xs) ≡ le_value (reverse xs)
bswap64_load (a ∷ b ∷ c ∷ d ∷ e ∷ f ∷ g ∷ i ∷ []) h l = bswap64_lem a b c d e f g i h
bswap64_load _ h l = absurd (omega arith)

-- Swapping a word reverses the bytes that it has in memory.
pub bswap16_store : (v : ℕ) → v < 2 ^ 16 → le_bytes 2 (bswap16 v) ≡ reverse (le_bytes 2 v)
bswap16_store v h =
    bytes_of (reverse (le_bytes 2 v)) (omega arith) refl
      (ap bswap16 (sym (le_value2 v h)) ∙ bswap16_load (le_bytes 2 v) (omega arith) refl)

pub bswap32_store : (v : ℕ) → v < 2 ^ 32 → le_bytes 4 (bswap32 v) ≡ reverse (le_bytes 4 v)
bswap32_store v h =
    bytes_of (reverse (le_bytes 4 v)) (omega arith) refl
      (ap bswap32 (sym (le_value4 v h)) ∙ bswap32_load (le_bytes 4 v) (omega arith) refl)

-- Swapping a 64-bit word reverses the eight bytes that it has in memory.
pub bswap64_store : (v : ℕ) → v < 2 ^ 64 → le_bytes 8 (bswap64 v) ≡ reverse (le_bytes 8 v)
bswap64_store v h =
    bytes_of (reverse (le_bytes 8 v)) (omega arith) refl
      (ap bswap64 (sym (le_value8 v h)) ∙ bswap64_load (le_bytes 8 v) (omega arith) refl)

-- The little-endian stores write the bytes of the word from the lowest on, and the big-endian stores
-- from the highest on, whatever the order of the host.
pub set_layout :
    (host : Endian) (buf : Bytes) (p u v w : ℕ)
    → u < 2 ^ 16
    → v < 2 ^ 32
    → w < 2 ^ 64
    → (le_set_u16 host buf p u ≡ splice buf p (le_bytes 2 u))
      × (le_set_u32 host buf p v ≡ splice buf p (le_bytes 4 v))
      × (le_set_u64 host buf p w ≡ splice buf p (le_bytes 8 w))
      × (be_set_u16 host buf p u ≡ splice buf p (reverse (le_bytes 2 u)))
      × (be_set_u32 host buf p v ≡ splice buf p (reverse (le_bytes 4 v)))
      × (be_set_u64 host buf p w ≡ splice buf p (reverse (le_bytes 8 w)))
unfolding le_set_u16 le_set_u32 le_set_u64 be_set_u16 be_set_u32 be_set_u64
set_layout little buf p u v w hu hv hw = (
  refl,
  refl,
  refl,
  ap (splice buf p) (bswap16_store u hu),
  ap (splice buf p) (bswap32_store v hv),
  ap (splice buf p) (bswap64_store w hw),
)
set_layout big buf p u v w hu hv hw = (
  ap (λ xs. splice buf p (reverse xs)) (bswap16_store u hu),
  ap (λ xs. splice buf p (reverse xs)) (bswap32_store v hv),
  ap (λ xs. splice buf p (reverse xs)) (bswap64_store w hw),
  refl,
  refl,
  refl,
)

-- A little-endian load gives the word of the bytes as they stand, a big-endian one that of the bytes
-- reversed, on every host.
le_read16 :
    (host : Endian) (xs : Bytes)
    → AllBytes xs
    → length xs ≡ 2
    → if_big host bswap16 (from_memory host xs) ≡ le_value xs
le_read16 little xs h l = refl
le_read16 big (a ∷ b ∷ []) h l = bswap16_load (reverse (a ∷ b ∷ [])) (omega arith) refl
le_read16 _ xs h l = absurd (omega arith)

be_read16 :
    (host : Endian) (xs : Bytes)
    → AllBytes xs
    → length xs ≡ 2
    → if_little host bswap16 (from_memory host xs) ≡ le_value (reverse xs)
be_read16 big xs h l = refl
be_read16 little xs h l = bswap16_load xs h l

le_read32 :
    (host : Endian) (xs : Bytes)
    → AllBytes xs
    → length xs ≡ 4
    → if_big host bswap32 (from_memory host xs) ≡ le_value xs
le_read32 little xs h l = refl
le_read32 big (a ∷ b ∷ c ∷ d ∷ []) h l =
    bswap32_load (reverse (a ∷ b ∷ c ∷ d ∷ [])) (omega arith) refl
le_read32 _ xs h l = absurd (omega arith)

be_read32 :
    (host : Endian) (xs : Bytes)
    → AllBytes xs
    → length xs ≡ 4
    → if_little host bswap32 (from_memory host xs) ≡ le_value (reverse xs)
be_read32 big xs h l = refl
be_read32 little xs h l = bswap32_load xs h l

le_read64 :
    (host : Endian) (xs : Bytes)
    → AllBytes xs
    → length xs ≡ 8
    → if_big host bswap64 (from_memory host xs) ≡ le_value xs
le_read64 little xs h l = refl
le_read64 big (a ∷ b ∷ c ∷ d ∷ e ∷ f ∷ g ∷ i ∷ []) h l =
    bswap64_load (reverse (a ∷ b ∷ c ∷ d ∷ e ∷ f ∷ g ∷ i ∷ [])) (omega arith) refl
le_read64 _ xs h l = absurd (omega arith)

be_read64 :
    (host : Endian) (xs : Bytes)
    → AllBytes xs
    → length xs ≡ 8
    → if_little host bswap64 (from_memory host xs) ≡ le_value (reverse xs)
be_read64 big xs h l = refl
be_read64 little xs h l = bswap64_load xs h l

read_back :
    (read : Bytes → ℕ) (buf : Bytes) (p : ℕ) (xs : Bytes) {n v : ℕ} {b : Bytes}
    → b ≡ splice buf p xs
    → n ≡ length xs
    → p + n ≤ length buf
    → read xs ≡ v
    → read (slice b p n) ≡ v
read_back read buf p xs {n} e l room r =
    ap (λ b. read (slice b p n)) e ∙ ap read (slice-splice_self buf p xs n l (omega arith)) ∙ r

-- For each width, a word that fits it and memory that has the bytes of that width at the offset, on
-- either host: the little-endian store writes the bytes from the lowest on and the big-endian store from
-- the highest on, and the load of the same order and width reads the word back.
pub get-set :
    (host : Endian) (a b c : Bytes) (p q r u v w : ℕ)
    → u < 2 ^ 16
    → v < 2 ^ 32
    → w < 2 ^ 64
    → p + 2 ≤ length a
    → q + 4 ≤ length b
    → r + 8 ≤ length c
    → ((le_set_u16 host a p u ≡ splice a p (le_bytes 2 u))
        × (le_set_u32 host b q v ≡ splice b q (le_bytes 4 v))
        × (le_set_u64 host c r w ≡ splice c r (le_bytes 8 w))
        × (be_set_u16 host a p u ≡ splice a p (reverse (le_bytes 2 u)))
        × (be_set_u32 host b q v ≡ splice b q (reverse (le_bytes 4 v)))
        × (be_set_u64 host c r w ≡ splice c r (reverse (le_bytes 8 w))))
      × (le_get_u16 host (le_set_u16 host a p u) p ≡ u)
      × (le_get_u32 host (le_set_u32 host b q v) q ≡ v)
      × (le_get_u64 host (le_set_u64 host c r w) r ≡ w)
      × (be_get_u16 host (be_set_u16 host a p u) p ≡ u)
      × (be_get_u32 host (be_set_u32 host b q v) q ≡ v)
      × (be_get_u64 host (be_set_u64 host c r w) r ≡ w)
unfolding le_get_u16 le_get_u32 le_get_u64 be_get_u16 be_get_u32 be_get_u64
get-set host a b c p q r u v w hu hv hw ha hb hc =
    let (le_at16, _, _, be_at16, _, _) = set_layout host a p u v w hu hv hw in
    let (_, le_at32, _, _, be_at32, _) = set_layout host b q u v w hu hv hw in
    let (_, _, le_at64, _, _, be_at64) = set_layout host c r u v w hu hv hw in
    let le16 = le_bytes 2 u in
    let le32 = le_bytes 4 v in
    let le64 = le_bytes 8 w in
    (
      (le_at16, le_at32, le_at64, be_at16, be_at32, be_at64),
      read_back (λ xs. if_big host bswap16 (from_memory host xs)) a p le16 le_at16 refl ha
          (le_read16 host le16 (omega arith) refl ∙ le_value2 u hu),
      read_back (λ xs. if_big host bswap32 (from_memory host xs)) b q le32 le_at32 refl hb
          (le_read32 host le32 (omega arith) refl ∙ le_value4 v hv),
      read_back (λ xs. if_big host bswap64 (from_memory host xs)) c r le64 le_at64 refl hc
          (le_read64 host le64 (omega arith) refl ∙ le_value8 w hw),
      read_back (λ xs. if_little host bswap16 (from_memory host xs)) a p (reverse le16) be_at16 refl
          ha (be_read16 host (reverse le16) (omega arith) refl ∙ le_value2 u hu),
      read_back (λ xs. if_little host bswap32 (from_memory host xs)) b q (reverse le32) be_at32 refl
          hb (be_read32 host (reverse le32) (omega arith) refl ∙ le_value4 v hv),
      read_back (λ xs. if_little host bswap64 (from_memory host xs)) c r (reverse le64) be_at64 refl
          hc (be_read64 host (reverse le64) (omega arith) refl ∙ le_value8 w hw),
    )
