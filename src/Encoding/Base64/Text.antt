-- ===== src/Encoding/Base64/Text.antt =====
-- The text that the encoder writes, whole groups and the last one, without its state.
use coter.Base.{
  ℕ, zero, suc, true, false, ◌+◌, ◌-◌, ◌*◌, ◌/◌, ◌%◌, ◌≤◌, ◌<◌, ◌≡◌, refl, sym, ap, ap₂, ◌∙◌, arith,
  Bool, [], ◌∷◌, ◌++◌, ltb, ◌==◌, Bytes, length, length-append, take, drop, if◌then◌else◌,
  append-nil, append_assoc,
}
use coter.Encoding.Base64.{
  Encoder, encoder_init, encoder_update, encoder_final, quad, keep, update_loop, padded, encode,
  written_at,
}

-- the encoding of bytes, three at a time
unfoldable pub text_of : Bytes → Bytes
unfolding padded
text_of (x ∷ y ∷ z ∷ xs) = quad x y z ++ text_of xs
text_of (x ∷ y ∷ []) = padded (record { byte0 = x; byte1 = y; byte2 = 0; count = 2 })
text_of (x ∷ []) = padded (record { byte0 = x; byte1 = 0; byte2 = 0; count = 1 })
text_of [] = []

-- the length of the text
abbrev pub groups : ℕ → ℕ
groups n = n / 3 + (if n % 3 == 0 then 0 else 1)

pub length-text_of : (xs : Bytes) → length (text_of xs) ≡ groups (length xs) * 4
unfolding text_of padded quad
length-text_of (x ∷ y ∷ z ∷ xs) = ground (arith, length-text_of xs)
length-text_of (x ∷ y ∷ []) = refl
length-text_of (x ∷ []) = refl
length-text_of [] = refl

-- the loop and the last group together
abbrev finished : Bool × Bytes × Encoder → Bool × Bytes
finished (ok, text, state) = (ok, text ++ padded state)

abbrev between : ℕ → ℕ → ℕ → Encoder
between b0 b1 b2 = record { byte0 = b0; byte1 = b1; byte2 = b2; count = 0 }

whole_group :
    (b0 b1 b2 x y z room : ℕ) (xs : Bytes)
    → 4 ≤ room
    → finished (update_loop (between b0 b1 b2) (x ∷ y ∷ z ∷ xs) room) ≡ (
        let (ok, text) = finished (update_loop (between x y z) xs (room - 4)) in
        (ok, quad x y z ++ text))
unfolding update_loop keep quad
whole_group b0 b1 b2 x y z room xs h =
    let fits : ltb room 4 ≡ false = ground arith in rw (fits) refl

two :
    (b0 b1 b2 x y room : ℕ)
    → finished (update_loop (between b0 b1 b2) (x ∷ y ∷ []) room) ≡ (true, text_of (x ∷ y ∷ []))
unfolding update_loop keep padded text_of
two b0 b1 b2 x y room = refl

one :
    (b0 b1 b2 x room : ℕ)
    → finished (update_loop (between b0 b1 b2) (x ∷ []) room) ≡ (true, text_of (x ∷ []))
unfolding update_loop keep padded text_of
one b0 b1 b2 x room = refl

none_left :
    (b0 b1 b2 room : ℕ) → finished (update_loop (between b0 b1 b2) [] room) ≡ (true, text_of [])
unfolding update_loop padded text_of
none_left b0 b1 b2 room = refl

update_loop-text_of :
    (b0 b1 b2 : ℕ) (xs : Bytes) (room : ℕ)
    → groups (length xs) * 4 ≤ room
    → finished (update_loop (between b0 b1 b2) xs room) ≡ (true, text_of xs)
unfolding text_of
update_loop-text_of b0 b1 b2 (x ∷ y ∷ z ∷ xs) room h =
    whole_group b0 b1 b2 x y z room xs (ground arith)
    ∙ ap (λ (r : Bool × Bytes). (r.0, quad x y z ++ r.1))
        (update_loop-text_of x y z xs (room - 4) (ground arith))
update_loop-text_of b0 b1 b2 (x ∷ y ∷ []) room h = two b0 b1 b2 x y room
update_loop-text_of b0 b1 b2 (x ∷ []) room h = one b0 b1 b2 x room
update_loop-text_of b0 b1 b2 [] room h = none_left b0 b1 b2 room

final-padded :
    (self : Encoder) (max : ℕ)
    → length (padded self) < max
    → (encoder_final self max).0 ≡ length (padded self)
      × (encoder_final self max).1 ≡ padded self ++ 0 ∷ []
unfolding encoder_final padded quad
final-padded self max h = ground arith

drop_none : (n : ℕ) → drop {A = ℕ} (0 + n) [] ≡ []
drop_none zero = refl
drop_none (suc n) = ground arith

drop_past : (xs : Bytes) (n : ℕ) → drop (length xs + n) xs ≡ []
drop_past [] n = drop_none n
drop_past (x ∷ xs) n =
    let next : length (x ∷ xs) + n ≡ suc (length xs + n) = omega arith in rw (next) (drop_past xs n)

take_all : (xs : Bytes) → take (length xs) xs ≡ xs
take_all [] = refl
take_all (x ∷ xs) = ap (◌∷◌ x) (take_all xs)

written_at-end : (xs ys : Bytes) → written_at (length xs) xs ys ≡ xs ++ ys
written_at-end xs ys = rw (take_all xs, drop_past xs (length ys)) (append-nil (xs ++ ys))

-- `ct_base64_encode` with room for the text and a zero behind it
pub encode-text_of :
    (xs : Bytes) (max : ℕ)
    → length (text_of xs) < max
    → encode xs max ≡ (length (text_of xs), text_of xs ++ 0 ∷ [])
unfolding encode encoder_update
encode-text_of xs max h =
    let size = length-text_of xs in
    let e = update_loop-text_of 0 0 0 xs (max - 1) (omega (arith, size)) in
    let r = update_loop encoder_init xs (max - 1) in
    let fine : r.0 ≡ true = ap (λ (t : Bool × Bytes). t.0) e in
    let whole : r.1 ++ padded r.2 ≡ text_of xs = ap (λ (t : Bool × Bytes). t.1) e in
    let sum : length r.1 + length (padded r.2) ≡ length (text_of xs) =
      sym (length-append r.1 (padded r.2)) ∙ ap length whole in
    let last = final-padded r.2 (max - length r.1) (omega (arith, sum)) in
    let fits : ltb max (groups (length xs) * 4 + 1) ≡ false = ground (arith, size) in
    rw (fits, fine, last.0, last.1, written_at-end, sum)
      (ap₂ (λ (n : ℕ) (t : Bytes). (n, t)) refl
        (sym (append_assoc r.1 (padded r.2) (0 ∷ [])) ∙ ap (λ t. t ++ 0 ∷ []) whole))
