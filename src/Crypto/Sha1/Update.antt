-- ===== src/Crypto/Sha1/Update.antt =====
-- A context that carries a message carries a longer one after ct_sha1_update.
use coter.Base.{
  ℕ, suc, ◌+◌, ◌-◌, ◌*◌, ◌%◌, ◌^◌, ◌≤◌, ◌<◌, ◌≡◌, refl, sym, ap, subst, ◌∙◌, arith, Option, none,
  some, [], ◌++◌, append_assoc, Bytes, length, length-take, length-drop, length-append, take, drop,
  take-append-drop, ltb, splice, length-splice, take-splice, Bool-cases, inl, inr,
}
use coter.Encoding.Binary.{Endian}
use coter.Crypto.Blocks.{Holds, copied, filled_up, extended}
use coter.Crypto.Md5.Update.{bits_after, filled_lem, filled_rest}
use coter.Crypto.Sha1.Rounds.{Registers, transform}
use coter.Crypto.Sha1.{
  Context, start, init, low_after, high_after, filled, and_then, blocks, update,
}
use coter.Crypto.Sha1.Loop.{IsEnded, blocks-IsEnded}

-- the context after the message `m`
pub record Carries (host : Endian) (self : Context) (m : Bytes) : Type 0 where
  pub held : Holds (transform host) start self.state self.buffer m
  pub bits : self.low + 2 ^ 32 * self.high ≡ 8 * length m % 2 ^ 64
  pub low_small : self.low < 2 ^ 32
  pub high_small : self.high < 2 ^ 32

-- the call ended, in such a context
abbrev pub CarriesSome : Endian → Bytes → Option Context → Type 0
CarriesSome host m none = ⊥
CarriesSome host m (some self) = Carries host self m

pub init-Carries :
    (host : Endian) (garbage : Bytes) → length garbage ≡ 64 → Carries host (init garbage) []
unfolding init
init-Carries host garbage h = record {
  held = record {
    count = 0;
    whole = [];
    rest = [];
    parts = refl;
    blocks = refl;
    short = omega arith;
    chained = refl;
    waits = refl;
    size = h;
  };
  bits = omega arith;
  low_small = omega arith;
  high_small = omega arith;
}

module _ (host : Endian) (self : Context) (m : Bytes) (v : Carries host self m) where
  abbrev r : ℕ
  r = length v.held.rest

  pub split_size : length m ≡ 64 * v.held.count + r
  split_size =
      omega (arith, ap length v.held.parts, length-append v.held.whole v.held.rest, v.held.blocks)

  pub waiting : filled self.low ≡ r
  waiting =
      filled_lem self.low
      ∙ filled_rest self.low self.high v.held.count r (omega (arith, v.bits, split_size))
          v.low_small v.held.short

  module _ (p : Bytes) where
    abbrev low : ℕ
    low = low_after self.low (length p)

    abbrev high : ℕ
    high = high_after self.low self.high (length p)

    counted :
        (state : Registers) (buffer : Bytes)
        → Holds (transform host) start state buffer (m ++ p)
        → Carries host (record { state = state; low = low; high = high; buffer = buffer }) (m ++ p)
    counted state buffer held = record {
      held = held;
      bits = omega (
        arith,
        length-append m p,
        bits_after self.low self.high (length m) (length p) v.bits v.low_small v.high_small,
      );
      low_small = omega arith;
      high_small = omega arith;
    }

    still_waits :
        r + length p < 64
        → Holds (transform host) start self.state (splice self.buffer r p) (m ++ p)
    still_waits h = record {
      count = v.held.count;
      whole = v.held.whole;
      rest = v.held.rest ++ p;
      parts =
          sym (append_assoc v.held.whole v.held.rest p) ∙ ap (λ (l : Bytes). l ++ p) v.held.parts;
      blocks = v.held.blocks;
      short = omega (arith, length-append v.held.rest p);
      chained = v.held.chained;
      waits =
          take-splice self.buffer r p (length (v.held.rest ++ p)) (length-append v.held.rest p)
            (omega (arith, v.held.size, length-append v.held.rest p))
          ∙ ap (λ (l : Bytes). l ++ p) v.held.waits;
      size = omega (arith, v.held.size, length-splice self.buffer r p);
    }

    abbrev first : Bytes
    first = take (64 - r) p

    abbrev full : Bytes
    full = splice self.buffer r first

    length-full : length full ≡ 64
    length-full = length-splice self.buffer r first ∙ v.held.size

    loop_ends :
        64 ≤ r + length p
        → length p < 2 ^ 32
        → IsEnded host p
            (m ++ p)
            (blocks host (length p + 1) (transform host self.state full) p (64 - r))
    loop_ends h s =
        let whole_block : full ≡ v.held.rest ++ first =
          filled_up self.buffer r v.held.rest first v.held.size v.held.waits
            (omega (arith, v.held.short, length-take (64 - r) p)) in
        let joined : (v.held.whole ++ full) ++ drop (64 - r) p ≡ m ++ p =
          ap (λ (l : Bytes). (v.held.whole ++ l) ++ drop (64 - r) p) whole_block
          ∙ ap (λ (l : Bytes). l ++ drop (64 - r) p)
              (sym (append_assoc v.held.whole v.held.rest first)
                ∙ ap (λ (l : Bytes). l ++ first) v.held.parts)
          ∙ append_assoc m first (drop (64 - r) p)
          ∙ ap (◌++◌ m) (take-append-drop (64 - r) p) in
        blocks-IsEnded host (length p + 1) (transform host self.state full) p (m ++ p) (64 - r)
          (suc v.held.count) (v.held.whole ++ full) s (omega (arith, v.held.short))
          (omega (arith, v.held.short))
          (omega (arith, length-append v.held.whole full, length-full, v.held.blocks))
          (extended (transform host) start self.state full v.held.count v.held.whole v.held.blocks
            length-full v.held.chained)
          joined

    after_loop :
        (o : Option (Registers × ℕ))
        → IsEnded host p (m ++ p) o
        → CarriesSome host (m ++ p) (
            and_then o (λ (state, i). some (record {
              state = state;
              low = low;
              high = high;
              buffer = splice full 0 (drop i p);
            })))
    after_loop none e = absurd e
    after_loop (some (state, i)) e = counted state (splice full 0 (drop i p)) (
        subst (Holds (transform host) start state (splice full 0 (drop i p))) e.parts (
          copied (transform host) start state full (drop i p) e.count e.whole
            (omega (arith, e.short, length-drop i p)) e.sized e.chained length-full))

    pub update-CarriesSome : length p < 2 ^ 32 → CarriesSome host (m ++ p) (update host self p)
    unfolding update
    update-CarriesSome s = elim (Bool-cases (ltb 63 (r + length p))) [
      | inl e ↦ rw (waiting, e) (after_loop _ (loop_ends (ground arith) s))
      | inr e ↦
          rw (waiting, e) (counted self.state (splice self.buffer r p) (still_waits (ground arith)))
    ]
