-- ===== src/Crypto/Sha1/Digest.antt =====
-- The SHA-1 digest of a message that came in pieces is that of the padded message.
use coter.Base.{
  ℕ, zero, suc, ◌+◌, ◌-◌, ◌*◌, ◌/◌, ◌%◌, ◌^◌, ◌<◌, ◌≡◌, ◌==◌, refl, sym, ap, ap₂, subst, ◌∙◌, arith,
  true, false, Option, none, some, List, [], ◌∷◌, ◌++◌, append-nil, append_assoc, Bytes, length,
  length-append, length-replicate, replicate, bit_and, and_low, and_fields, zero-and,
}
use coter.Encoding.Binary.{Endian}
use coter.Crypto.Blocks.{chain}
use coter.Crypto.Sha1.Rounds.{Registers, transform}
use coter.Crypto.Sha1.{Context, start, init, and_then, update, be_word, pad_loop, digest_of, finish}
use coter.Crypto.Sha1.Update.{Carries, CarriesSome, init-Carries, update-CarriesSome, split_size}

-- the zeros between the mark and the count of bits: up to 56 bytes into a block
abbrev pub gap_of : ℕ → ℕ
gap_of n = (119 - n % 64) % 64

-- the count of bits modulo 2 ^ 64, the highest byte first
abbrev pub count_bytes : ℕ → Bytes
count_bytes n = be_word (8 * n % 2 ^ 64 / 2 ^ 32) ++ be_word (8 * n % 2 ^ 64 % 2 ^ 32)

abbrev pub padded : Bytes → Bytes
padded m = m ++ 128 ∷ (replicate (gap_of (length m)) 0 ++ count_bytes (length m))

-- the digest of a whole message
abbrev pub digest : Endian → Bytes → Bytes
digest host m = digest_of (chain (transform host) (length (padded m) / 64) start (padded m))

-- the test of the loop of ct_sha1_final, on a multiple of 8
test_lem : (q : ℕ) → bit_and (q * 8) 504 ≡ q % 64 * 8
test_lem q =
    let parts : q * 8 ≡ q * 2 ^ 3 + 0 = omega arith in
    ap (λ (n : ℕ). bit_and n 504) parts
    ∙ and_fields 3 q 63 0 0 (omega arith) (omega arith)
    ∙ omega (arith, and_low 6 q, zero-and 0)

length-zero : (xs : Bytes) → length xs ≡ 0 → xs ≡ []
length-zero [] e = refl
length-zero (x ∷ xs) e = absurd (omega arith)

module _ (host : Endian) where
  then_CarriesSome :
      (o : Option Context) (m m' : Bytes) (f : Context → Option Context)
      → CarriesSome host m o
      → ((c : Context) → Carries host c m → CarriesSome host m' (f c))
      → CarriesSome host m' (and_then o f)
  then_CarriesSome none m m' f v g = absurd v
  then_CarriesSome (some c) m m' f v g = g c v

  test_at :
      (self : Context) (m : Bytes) → Carries host self m → bit_and self.low 504 ≡ length m % 64 * 8
  test_at self m v =
      let eighth : self.low ≡ self.low / 8 * 8 = omega (arith, v.bits, v.low_small) in
      let place : self.low / 8 % 64 ≡ length m % 64 = omega (arith, v.bits, v.low_small) in
      ap (λ (n : ℕ). bit_and n 504) eighth ∙ test_lem (self.low / 8) ∙ ap (λ (n : ℕ). n * 8) place

  -- so many zeros are put in
  pad_loop-CarriesSome :
      (n fuel : ℕ) (self : Context) (m : Bytes)
      → Carries host self m
      → (length m + n) % 64 ≡ 56
      → n < 64
      → n < fuel
      → CarriesSome host (m ++ replicate n 0) (pad_loop host fuel self)
  unfolding pad_loop
  pad_loop-CarriesSome n zero self m v e h f = absurd (omega arith)
  pad_loop-CarriesSome zero (suc fuel) self m v e h f =
      let ready : (bit_and self.low 504 == 448) ≡ true = ground (arith, test_at self m v) in
      rw ready (subst (λ (l : Bytes). Carries host self l) (sym (append-nil m)) v)
  pad_loop-CarriesSome (suc n) (suc fuel) self m v e h f =
      let not_yet : (bit_and self.low 504 == 448) ≡ false = ground (arith, test_at self m v) in
      let joined = append_assoc m (0 ∷ []) (replicate n 0) in
      rw not_yet (
        then_CarriesSome (update host self (0 ∷ [])) (m ++ 0 ∷ []) (m ++ replicate (suc n) 0)
          (pad_loop host fuel) (update-CarriesSome host self m v (0 ∷ []) (omega arith))
          (λ c w.
            subst (λ (l : Bytes). CarriesSome host l (pad_loop host fuel c)) joined
              (pad_loop-CarriesSome n fuel c (m ++ 0 ∷ []) w
                (omega (arith, length-append m (0 ∷ []))) (omega arith) (omega arith))))

  -- a context between two blocks has the registers of all blocks
  at_block_end :
      (self : Context) (m : Bytes)
      → Carries host self m
      → length m % 64 ≡ 0
      → self.state ≡ chain (transform host) (length m / 64) start m
  at_block_end self m v e =
      let size = split_size host self m v in
      let whole : v.held.whole ≡ m =
        sym (append-nil v.held.whole)
        ∙ ap (◌++◌ v.held.whole) (sym (length-zero v.held.rest (omega (arith, size, v.held.short))))
        ∙ v.held.parts in
      v.held.chained
      ∙ ap₂ (λ (n : ℕ) (l : Bytes). chain (transform host) n start l)
          (let blocks : v.held.count ≡ length m / 64 = omega (arith, size, v.held.short) in blocks)
          whole

  ends_with :
      (o : Option Context) (m : Bytes)
      → CarriesSome host m o
      → length m % 64 ≡ 0
      → and_then o (λ last. some (digest_of last.state))
        ≡ some (digest_of (chain (transform host) (length m / 64) start m))
  ends_with none m v e = absurd v
  ends_with (some c) m v e = ap (λ (r : Registers). some (digest_of r)) (at_block_end c m v e)

  then_same :
      (o : Option Context) (m : Bytes) (f : Context → Option Bytes) (x : Option Bytes)
      → CarriesSome host m o
      → ((c : Context) → Carries host c m → f c ≡ x)
      → and_then o f ≡ x
  then_same none m f x v g = absurd v
  then_same (some c) m f x v g = g c v

  pub finish-digest :
      (self : Context) (m : Bytes) → Carries host self m → finish host self ≡ some (digest host m)
  unfolding finish
  finish-digest self m v =
      let n = length m in
      let gap = gap_of n in
      let finalcount = be_word self.high ++ be_word self.low in
      let stored : finalcount ≡ count_bytes n =
        ap₂ (λ (h l : ℕ). be_word h ++ be_word l)
          (let high : self.high ≡ 8 * n % 2 ^ 64 / 2 ^ 32 =
              omega (arith, v.bits, v.low_small, v.high_small) in
            high)
          (let low : self.low ≡ 8 * n % 2 ^ 64 % 2 ^ 32 =
              omega (arith, v.bits, v.low_small, v.high_small) in
            low) in
      let marked = m ++ 128 ∷ [] in
      let zeroed = marked ++ replicate gap 0 in
      let size : length zeroed ≡ n + 1 + gap = omega (
        arith,
        length-append m (128 ∷ []),
        length-append marked (replicate gap 0),
        length-replicate {A = ℕ} gap 0,
      ) in
      let message : zeroed ++ finalcount ≡ padded m =
        ap (◌++◌ zeroed) stored
        ∙ append_assoc marked (replicate gap 0) (count_bytes n)
        ∙ append_assoc m (128 ∷ []) (replicate gap 0 ++ count_bytes n) in
      then_same (update host self (128 ∷ [])) marked _ (some (digest host m))
        (update-CarriesSome host self m v (128 ∷ []) (omega arith))
        (λ c w.
          then_same (pad_loop host 65 c) zeroed _ (some (digest host m))
            (pad_loop-CarriesSome gap 65 c marked w (omega (arith, length-append m (128 ∷ [])))
              (omega arith) (omega arith))
            (λ d u.
              ends_with (update host d finalcount) (zeroed ++ finalcount)
                (update-CarriesSome host d zeroed u finalcount (omega arith))
                (omega (arith, length-append zeroed finalcount, size))
              ∙ ap
                  (λ (l : Bytes). some (digest_of (chain (transform host) (length l / 64) start l)))
                  message))

-- the calls of ct_sha1_update for the pieces of a message
unfoldable pub update_all : Endian → Context → List Bytes → Option Context
update_all host self [] = some self
update_all host self (piece ∷ pieces) =
    and_then (update host self piece) (λ after. update_all host after pieces)

abbrev pub joined : List Bytes → Bytes
joined [] = []
joined (piece ∷ pieces) = piece ++ joined pieces

abbrev pub AllShort : List Bytes → Type 0
AllShort [] = Unit
AllShort (piece ∷ pieces) = (length piece < 2 ^ 32) × AllShort pieces

update_all-CarriesSome :
    (host : Endian) (self : Context) (m : Bytes) (pieces : List Bytes)
    → Carries host self m
    → AllShort pieces
    → CarriesSome host (m ++ joined pieces) (update_all host self pieces)
unfolding update_all
update_all-CarriesSome host self m [] v s = subst (Carries host self) (sym (append-nil m)) v
update_all-CarriesSome host self m (piece ∷ pieces) v s =
    then_CarriesSome host (update host self piece) (m ++ piece) (m ++ joined (piece ∷ pieces))
      (λ after. update_all host after pieces) (update-CarriesSome host self m v piece s.0)
      (λ c w.
        subst (λ (l : Bytes). CarriesSome host l (update_all host c pieces))
          (append_assoc m piece (joined pieces))
          (update_all-CarriesSome host c (m ++ piece) pieces w s.1))

-- The digest of a message in pieces, each of less than 2 ^ 32 bytes, that go through ct_sha1_init, one
-- ct_sha1_update for each and ct_sha1_final, on machines of both byte orders and whatever the buffer held:
-- every call ends, and the digest is that of the whole message with the mark 0x80, zeros up to 56
-- bytes into a block and the count of its bits modulo 2 ^ 64, highest byte first, whose blocks of
-- 64 bytes go through sha1_transform from the start values, in order.
pub sha1_of_pieces :
    (host : Endian) (garbage : Bytes) (pieces : List Bytes)
    → length garbage ≡ 64
    → AllShort pieces
    → and_then (update_all host (init garbage) pieces) (finish host)
      ≡ some (digest host (joined pieces))
sha1_of_pieces host garbage pieces g s =
    then_same host (update_all host (init garbage) pieces) (joined pieces) (finish host)
      (some (digest host (joined pieces)))
      (update_all-CarriesSome host (init garbage) [] pieces (init-Carries host garbage g) s)
      (λ c w. finish-digest host c (joined pieces) w)
