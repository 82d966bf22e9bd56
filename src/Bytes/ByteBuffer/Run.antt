-- ===== src/Bytes/ByteBuffer/Run.antt =====
-- Any sequence of calls on a byte buffer.
use coter.Base.{
  drop, ap, sym, false, ℕ, min, ◌≡◌, ◌∙◌, refl, List, [], ◌∷◌, Bytes, length, arith, ◌≤◌, ◌^◌, ◌<◌,
}
use coter.Encoding.Binary.{Endian, big, little, in_memory}
use coter.Bytes.ByteBuffer.{
  ByteBuffer, init, from, seek, reseek, skip, commit, truncate, compact, clear,
}
use coter.Bytes.ByteBuffer.Call.{Call}
use coter.Bytes.ByteBuffer.Words.{
  order16, order32, order64, put_u8, put_u16, put_u32, put_u64, take_u8, take_u16, take_u32,
  take_u64, set_u8, set_u16, set_u32, set_u64, abs_pos,
}
use coter.Bytes.ByteBuffer.Blocks.{fill, overfill, set_bytes, poke_bytes, take_bytes, put_bytes}
use coter.Bytes.ByteBuffer.Inv.{
  IsValid, Keeps, seek-Keeps, reseek-Keeps, skip-Keeps, commit-Keeps, truncate-Keeps, compact-Keeps,
  put_word-Keeps, take_word-Keeps, set_word-Keeps, put_u8-Keeps, take_u8-Keeps, set_u8-Keeps,
  fill-Keeps, overfill-Keeps, set_bytes-Keeps, poke_bytes_at-Keeps, take_bytes-Keeps,
  put_bytes-Keeps,
}

length-in_memory16 : (host : Endian) (v : ℕ) → length (in_memory host 2 v) ≡ 2
length-in_memory16 little v = refl
length-in_memory16 big v = refl

length-in_memory32 : (host : Endian) (v : ℕ) → length (in_memory host 4 v) ≡ 4
length-in_memory32 little v = refl
length-in_memory32 big v = refl

length-in_memory64 : (host : Endian) (v : ℕ) → length (in_memory host 8 v) ≡ 8
length-in_memory64 little v = refl
length-in_memory64 big v = refl

module _ (host : Endian) where
  -- The buffer after a call.
  unfoldable pub perform : ByteBuffer → Call → ByteBuffer
  perform s (Call.seek n) = (seek s n).1
  perform s (Call.reseek n) = (reseek s n).1
  perform s (Call.skip n) = (skip s n).1
  perform s (Call.commit n) = (commit s n).1
  perform s (Call.truncate n) = truncate s n
  perform s Call.compact = compact s
  perform s Call.clear = clear s
  perform s Call.rewind = record s { pos = 0 }
  perform s Call.clear_error = record s { overflow = false }
  perform s (Call.set_endian e) = record s { endian = e }
  perform s (Call.set_hlswap b) = record s { hlswap = b }
  perform s (Call.fill bt n) = (fill s bt n).1
  perform s (Call.overfill bt n) = (overfill s bt n).1
  perform s (Call.set_bytes offset p n) = (set_bytes s offset p n).1
  perform s (Call.poke_bytes offset p n) = (poke_bytes s offset p n).1
  perform s (Call.take_bytes p n) = (take_bytes s p n).2
  perform s (Call.put_bytes p n) = (put_bytes s p n).1
  perform s (Call.put_u8 v) = put_u8 s v
  perform s (Call.put_u16 v) = put_u16 host s v
  perform s (Call.put_u32 v) = put_u32 host s v
  perform s (Call.put_u64 v) = put_u64 host s v
  perform s Call.take_u8 = (take_u8 s).1
  perform s Call.take_u16 = (take_u16 host s).1
  perform s Call.take_u32 = (take_u32 host s).1
  perform s Call.take_u64 = (take_u64 host s).1
  perform s (Call.set_u8 offset v) = (set_u8 s offset v).1
  perform s (Call.set_u16 offset v) = (set_u16 host s offset v).1
  perform s (Call.set_u32 offset v) = (set_u32 host s offset v).1
  perform s (Call.set_u64 offset v) = (set_u64 host s offset v).1

  -- The buffer after a sequence of calls.
  unfoldable pub run : ByteBuffer → List Call → ByteBuffer
  run s [] = s
  run s (c ∷ cs) = run (perform s c) cs

  perform-Keeps : (s : ByteBuffer) (c : Call) → Keeps s (perform s c)
  unfolding perform put_u16 put_u32 put_u64 take_u16 take_u32 take_u64 set_u16 set_u32 set_u64
      poke_bytes
  perform-Keeps s (Call.seek n) = seek-Keeps s n
  perform-Keeps s (Call.reseek n) = reseek-Keeps s n
  perform-Keeps s (Call.skip n) = skip-Keeps s n
  perform-Keeps s (Call.commit n) = commit-Keeps s n
  perform-Keeps s (Call.truncate n) = truncate-Keeps s n
  perform-Keeps s Call.compact = compact-Keeps s
  perform-Keeps s Call.clear = record {
    valid = λ v. ground arith;
    cap_same = refl;
    size_same = refl;
    past = λ v. refl;
  }
  perform-Keeps s Call.rewind = record {
    valid = λ v. ground arith;
    cap_same = refl;
    size_same = refl;
    past = λ v. refl;
  }
  perform-Keeps s Call.clear_error = record {
    valid = λ v. ground arith;
    cap_same = refl;
    size_same = refl;
    past = λ v. refl;
  }
  perform-Keeps s (Call.set_endian e) = record {
    valid = λ v. ground arith;
    cap_same = refl;
    size_same = refl;
    past = λ v. refl;
  }
  perform-Keeps s (Call.set_hlswap b) = record {
    valid = λ v. ground arith;
    cap_same = refl;
    size_same = refl;
    past = λ v. refl;
  }
  perform-Keeps s (Call.fill bt n) = fill-Keeps s bt n
  perform-Keeps s (Call.overfill bt n) = overfill-Keeps s bt n
  perform-Keeps s (Call.set_bytes offset p n) = set_bytes-Keeps s offset p n
  perform-Keeps s (Call.poke_bytes offset p n) = poke_bytes_at-Keeps s (abs_pos s offset) p n
  perform-Keeps s (Call.take_bytes p n) = take_bytes-Keeps s p n
  perform-Keeps s (Call.put_bytes p n) = put_bytes-Keeps s p n
  perform-Keeps s (Call.put_u8 v) = put_u8-Keeps s v
  perform-Keeps s (Call.put_u16 v) =
      put_word-Keeps s host 2 (order16 host) v (length-in_memory16 host)
  perform-Keeps s (Call.put_u32 v) =
      put_word-Keeps s host 4 (order32 host) v (length-in_memory32 host)
  perform-Keeps s (Call.put_u64 v) =
      put_word-Keeps s host 8 (order64 host) v (length-in_memory64 host)
  perform-Keeps s Call.take_u8 = take_u8-Keeps s
  perform-Keeps s Call.take_u16 = take_word-Keeps s host 2 (order16 host)
  perform-Keeps s Call.take_u32 = take_word-Keeps s host 4 (order32 host)
  perform-Keeps s Call.take_u64 = take_word-Keeps s host 8 (order64 host)
  perform-Keeps s (Call.set_u8 offset v) = set_u8-Keeps s offset v
  perform-Keeps s (Call.set_u16 offset v) =
      set_word-Keeps s host 2 (order16 host) offset v (length-in_memory16 host)
  perform-Keeps s (Call.set_u32 offset v) =
      set_word-Keeps s host 4 (order32 host) offset v (length-in_memory32 host)
  perform-Keeps s (Call.set_u64 offset v) =
      set_word-Keeps s host 8 (order64 host) offset v (length-in_memory64 host)

-- ct_bytes_init over memory of at least the given capacity, below 2^32, gives a valid empty buffer,
-- and ct_bytes_from a valid one of the given length, or of the whole capacity if that is less.
pub init-from-IsValid :
    (store : Bytes) (cap len : ℕ)
    → cap < 2 ^ 32
    → len < 2 ^ 32
    → cap ≤ length store
    → IsValid (init store cap)
      × ((init store cap).len ≡ 0)
      × IsValid (from store cap len)
      × ((from store cap len).len ≡ min len cap)
unfolding init from
init-from-IsValid store cap len h k r = ground arith

-- Any sequence of calls that change a valid buffer, on either host, leaves a valid buffer: the length
-- stays within the capacity and the position within the length. The capacity and the size of the
-- memory never change, and what lies in the memory behind the capacity is as it was.
pub run-IsValid :
    (host : Endian) (s : ByteBuffer) (cs : List Call)
    → IsValid s
    → IsValid (run host s cs)
      × ((run host s cs).cap ≡ s.cap)
      × (length (run host s cs).store ≡ length s.store)
      × (drop s.cap (run host s cs).store ≡ drop s.cap s.store)
unfolding run
run-IsValid host s [] v = (v, refl, refl, refl)
run-IsValid host s (c ∷ cs) v =
    let k = perform-Keeps host s c in
    let t = perform host s c in
    let (valid, cap_same, size_same, past) = run-IsValid host t cs (k.valid v) in
    let end = (run host t cs).store in
    (
      valid,
      cap_same ∙ k.cap_same,
      size_same ∙ k.size_same,
      ap (λ n. drop n end) (sym k.cap_same) ∙ past ∙ ap (λ n. drop n t.store) k.cap_same ∙ k.past v,
    )
