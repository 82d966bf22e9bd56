-- ===== src/Bytes/ByteBuffer/Inv.antt =====
-- The invariant that bytes.h states for its fields, kept by every call.
use coter.Base.{
  true, false, refl, ltb, if◌then◌else◌, ℕ, ◌≤◌, ◌<◌, ◌^◌, ◌≡◌, Option, none, some, Bool, Bytes,
  arith, length, length-splice, length-take, length-replicate, drop-splice, drop, ◌+◌, splice,
  slice, take, replicate, [], ◌∷◌,
}
use coter.Encoding.Binary.{Endian, in_memory}
use coter.Bytes.ByteBuffer.{
  ByteBuffer, seek, reseek, skip, commit, truncate, compact, limit, flag, advance, writable,
  readable,
}
use coter.Bytes.ByteBuffer.Words.{put_word, take_word, set_word, put_u8, take_u8, set_u8}
use coter.Bytes.ByteBuffer.Blocks.{fill, overfill, set_bytes, poke_bytes_at, take_bytes, put_bytes}

-- `len` lies in [0, cap], `pos` in [0, len], and the memory has `cap` bytes.
pub record IsValid (s : ByteBuffer) : Type 0 where
  pub storage : s.cap ≤ length s.store
  pub small : s.cap < 2 ^ 32
  pub len_in : s.len ≤ s.cap
  pub pos_in : s.pos ≤ s.len

-- what every call keeps: validity, the capacity, the size of the memory and what lies behind the capacity
pub record Keeps (s t : ByteBuffer) : Type 0 where
  pub valid : IsValid s → IsValid t
  pub cap_same : t.cap ≡ s.cap
  pub size_same : length t.store ≡ length s.store
  pub past : IsValid s → drop s.cap t.store ≡ drop s.cap s.store

pub Keeps-refl : (s : ByteBuffer) → Keeps s s
Keeps-refl s = record { valid = λ v. v; cap_same = refl; size_same = refl; past = λ v. refl }

Keeps-if :
    {s x y : ByteBuffer} (b : Bool)
    → (b ≡ true → Keeps s x)
    → (b ≡ false → Keeps s y)
    → Keeps s (if b then x else y)
Keeps-if true h k = h refl
Keeps-if false h k = k refl

Keeps-if_snd :
    {A : Type 0} {s t u : ByteBuffer} (b : Bool) (x y : A)
    → (b ≡ true → Keeps s t)
    → (b ≡ false → Keeps s u)
    → Keeps s (if◌then◌else◌ {A = A × ByteBuffer} b (x, t) (y, u)).1
Keeps-if_snd true x y h k = h refl
Keeps-if_snd false x y h k = k refl

module _ (s : ByteBuffer) where
  flag-Keeps : Keeps s (flag s)
  flag-Keeps = record {
    valid = λ v. ground arith;
    cap_same = refl;
    size_same = refl;
    past = λ v. refl;
  }

  -- A write to the memory, alone and with the position moved into the room that there is.
  splice-Keeps :
      (p : ℕ) (src : Bytes)
      → (IsValid s → p + length src ≤ s.cap)
      → Keeps s (record s { store = splice s.store p src })
  splice-Keeps p src inside = record {
    valid = λ v. ground (arith, length-splice s.store p src);
    cap_same = refl;
    size_same = length-splice s.store p src;
    past = λ v. drop-splice s.store p src s.cap (inside v);
  }

  advance-Keeps :
      (p : ℕ) (src : Bytes) (n : ℕ)
      → n ≤ writable s
      → (IsValid s → p + length src ≤ s.cap)
      → Keeps s (advance (record s { store = splice s.store p src }) n)
  advance-Keeps p src n h inside = record {
    valid = λ v. ground (arith, length-splice s.store p src);
    cap_same = refl;
    size_same = length-splice s.store p src;
    past = λ v. drop-splice s.store p src s.cap (inside v);
  }

  -- A write to the memory of the flagged buffer or of the buffer itself, as `limit` leaves it.
  limit-Keeps : (bound n : ℕ) → Keeps s (limit s bound n).1
  limit-Keeps bound n = Keeps-if_snd (ltb bound n) _ _ (λ _. flag-Keeps) (λ _. Keeps-refl s)

  pub seek-Keeps : (offset : ℕ) → Keeps s (seek s offset).1
  unfolding seek
  seek-Keeps offset =
      Keeps-if_snd (ltb s.len offset) _ _ (λ _. flag-Keeps)
        λ e. record {
          valid = λ v. ground arith;
          cap_same = refl;
          size_same = refl;
          past = λ v. refl;
        }

  pub reseek-Keeps : (offset : ℕ) → Keeps s (reseek s offset).1
  unfolding reseek
  reseek-Keeps offset =
      Keeps-if_snd (ltb s.len offset) _ _ (λ _. flag-Keeps)
        λ e. record {
          valid = λ v. ground arith;
          cap_same = refl;
          size_same = refl;
          past = λ v. refl;
        }

  pub skip-Keeps : (request : ℕ) → Keeps s (skip s request).1
  unfolding skip
  skip-Keeps request = record {
    valid = λ v. ground arith;
    cap_same = ground arith;
    size_same = ground arith;
    past = λ v. ground arith;
  }

  pub commit-Keeps : (request : ℕ) → Keeps s (commit s request).1
  unfolding commit
  commit-Keeps request = record {
    valid = λ v. ground arith;
    cap_same = ground arith;
    size_same = ground arith;
    past = λ v. ground arith;
  }

  pub truncate-Keeps : (new_len : ℕ) → Keeps s (truncate s new_len)
  unfolding truncate
  truncate-Keeps new_len = record {
    valid = λ v. ground arith;
    cap_same = ground arith;
    size_same = ground arith;
    past = λ v. ground arith;
  }

  pub compact-Keeps : Keeps s (compact s)
  unfolding compact
  compact-Keeps = record {
    valid = λ v. ground (arith, length-splice s.store 0 (slice s.store s.pos (readable s)));
    cap_same = ground arith;
    size_same = ground (arith, length-splice s.store 0 (slice s.store s.pos (readable s)));
    past = λ v.
        let read = slice s.store s.pos (readable s) in
        ground
          (arith, length-take (readable s) (drop s.pos s.store), drop-splice s.store 0 read s.cap);
  }

  pub put_word-Keeps :
      (host : Endian) (n : ℕ) (order : Endian → Bool → ℕ → ℕ) (v : ℕ)
      → ((x : ℕ) → length (in_memory host n x) ≡ n)
      → Keeps s (put_word host n order s v)
  unfolding put_word
  put_word-Keeps host n order v sized =
      let x = order s.endian s.hlswap v in
      Keeps-if (ltb (writable s) n) (λ _. flag-Keeps)
        λ e.
          advance-Keeps s.pos (in_memory host n x) n (ground arith) (λ v. ground (arith, sized x))

  pub take_word-Keeps :
      (host : Endian) (n : ℕ) (order : Endian → Bool → ℕ → ℕ) → Keeps s (take_word host n order s).1
  unfolding take_word
  take_word-Keeps host n order =
      Keeps-if_snd (ltb (readable s) n) _ _ (λ _. flag-Keeps)
        λ e. record {
          valid = λ v. ground arith;
          cap_same = refl;
          size_same = refl;
          past = λ v. refl;
        }

  pub set_word-Keeps :
      (host : Endian) (n : ℕ) (order : Endian → Bool → ℕ → ℕ) (offset v : ℕ)
      → ((x : ℕ) → length (in_memory host n x) ≡ n)
      → Keeps s (set_word host n order s offset v).1
  unfolding set_word
  set_word-Keeps host n order offset v sized =
      let x = order s.endian s.hlswap v in
      Keeps-if_snd _ _ _ (λ _. flag-Keeps)
        λ e. splice-Keeps offset (in_memory host n x) (λ v. ground (arith, sized x))

  pub put_u8-Keeps : (v : ℕ) → Keeps s (put_u8 s v)
  unfolding put_u8
  put_u8-Keeps v =
      Keeps-if (ltb (writable s) 1) (λ _. flag-Keeps)
        λ e. advance-Keeps s.pos (v ∷ []) 1 (ground arith) (λ v. ground arith)

  pub take_u8-Keeps : Keeps s (take_u8 s).1
  unfolding take_u8
  take_u8-Keeps =
      Keeps-if_snd (ltb (readable s) 1) _ _ (λ _. flag-Keeps)
        λ e. record {
          valid = λ v. ground arith;
          cap_same = refl;
          size_same = refl;
          past = λ v. refl;
        }

  pub set_u8-Keeps : (offset v : ℕ) → Keeps s (set_u8 s offset v).1
  unfolding set_u8
  set_u8-Keeps offset v =
      Keeps-if_snd _ _ _ (λ _. flag-Keeps) λ e. splice-Keeps offset (v ∷ []) (λ v. ground arith)

  pub fill-Keeps : (bt request : ℕ) → Keeps s (fill s bt request).1
  unfolding fill
  fill-Keeps bt request =
      let n = (limit s (writable s) request).0 in
      let size = length-splice s.store s.pos (replicate n bt) in
      record {
        valid = λ v. ground (arith, size);
        cap_same = ground arith;
        size_same = ground (arith, size);
        past = λ v.
            ground (arith, length-replicate n bt, drop-splice s.store s.pos (replicate n bt) s.cap);
      }

  pub overfill-Keeps : (bt request : ℕ) → Keeps s (overfill s bt request).1
  unfolding overfill
  overfill-Keeps bt request =
      let n = (limit s s.cap request).0 in
      let size = length-splice s.store 0 (replicate n bt) in
      record {
        valid = λ v. ground (arith, size);
        cap_same = ground arith;
        size_same = ground (arith, size);
        past = λ v.
            ground (arith, length-replicate n bt, drop-splice s.store 0 (replicate n bt) s.cap);
      }

  pub set_bytes-Keeps : (offset : ℕ) (p : Option Bytes) (n : ℕ) → Keeps s (set_bytes s offset p n).1
  unfolding set_bytes
  set_bytes-Keeps offset none n = Keeps-if_snd _ _ _ (λ _. flag-Keeps) (λ _. Keeps-refl s)
  set_bytes-Keeps offset (some src) n =
      let size = length-splice s.store offset (take n src) in
      record {
        valid = λ v. ground (arith, size);
        cap_same = ground arith;
        size_same = ground (arith, size);
        past =
            λ v. ground (arith, length-take n src, drop-splice s.store offset (take n src) s.cap);
      }

  pub poke_bytes_at-Keeps :
      (at : Option ℕ) (p : Option Bytes) (n : ℕ) → Keeps s (poke_bytes_at s at p n).1
  unfolding poke_bytes_at
  poke_bytes_at-Keeps none p n = flag-Keeps
  poke_bytes_at-Keeps (some at) none n = Keeps-if_snd _ _ _ (λ _. flag-Keeps) (λ _. Keeps-refl s)
  poke_bytes_at-Keeps (some at) (some src) n =
      let size = length-splice s.store at (take n src) in
      record {
        valid = λ v. ground (arith, size);
        cap_same = ground arith;
        size_same = ground (arith, size);
        past = λ v. ground (arith, length-take n src, drop-splice s.store at (take n src) s.cap);
      }

  pub take_bytes-Keeps : (p : Bool) (request : ℕ) → Keeps s (take_bytes s p request).2
  unfolding take_bytes
  take_bytes-Keeps p request = record {
    valid = λ v. ground arith;
    cap_same = ground arith;
    size_same = ground arith;
    past = λ v. ground arith;
  }

  pub put_bytes-Keeps : (p : Option Bytes) (request : ℕ) → Keeps s (put_bytes s p request).1
  unfolding put_bytes
  put_bytes-Keeps none request = limit-Keeps (writable s) request
  put_bytes-Keeps (some src) request =
      let n = (limit s (writable s) request).0 in
      let size = length-splice s.store s.pos (take n src) in
      record {
        valid = λ v. ground (arith, size);
        cap_same = ground arith;
        size_same = ground (arith, size);
        past = λ v. ground (arith, length-take n src, drop-splice s.store s.pos (take n src) s.cap);
      }
