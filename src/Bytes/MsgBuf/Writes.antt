-- ===== src/Bytes/MsgBuf/Writes.antt =====
-- What a sequence of writes leaves in a message buffer.
use coter.Base.{
  ℕ, ◌+◌, ◌-◌, ◌≤◌, ◌≡◌, ◌==◌, min, refl, sym, ap, ap₂, ◌∙◌, arith, Option, none, some, List, [],
  ◌∷◌, ◌++◌, append-nil, append_assoc, Bytes, take, drop, length, length-take, length-append,
  take-length, length-splice, take-splice, take_of_append, take-append-drop, ltb, if◌then◌else◌,
  Bool-cases, inl, inr,
}
use coter.Bytes.MsgBuf.{MsgBuf, available, write}

pub record IsValid (self : MsgBuf) : Type 0 where
  pub storage : self.cap ≤ length self.store
  pub inside : self.write_pos ≤ self.cap

-- the bytes written
abbrev pub contents : MsgBuf → Bytes
contents self = take self.write_pos self.store

length-contents : (self : MsgBuf) → IsValid self → length (contents self) ≡ self.write_pos
length-contents self v = omega (arith, length-take self.write_pos self.store, v.storage, v.inside)

-- a write, by the number it returns
record Written (self : MsgBuf) (item : Bytes) (n : ℕ) (after : MsgBuf) : Type 0 where
  valid : IsValid after
  cap_same : after.cap ≡ self.cap
  appended : contents after ≡ contents self ++ take n item
  moved : after.write_pos ≡ self.write_pos + n
  number : n ≡ min (length item) (available self)

-- the buffer after a call
abbrev left_by : Option MsgBuf → MsgBuf → MsgBuf
left_by none self = self
left_by (some after) self = after

write-Written :
    (self : MsgBuf) (item : Bytes)
    → IsValid self
    → let (n, after) = write (some self) (some item) (length item) in
      Written self item n (left_by after self)
unfolding write
write-Written self item v =
    let room = available self in
    let n = if ltb room (length item) then room else length item in
    let fits : self.write_pos + length (take n item) ≤ length self.store =
      ground (arith, v.storage, v.inside, length-take n item) in
    let size : length (take n item) ≡ n = ground (arith, length-take n item) in
    elim (Bool-cases (length item == 0)) [
      | inl z ↦ rw z (record {
        valid = v;
        cap_same = refl;
        appended = sym (append-nil (contents self));
        moved = ground arith;
        number = ground arith;
      })
      | inr z ↦ elim (Bool-cases (n == 0)) [
        | inl e ↦
            rw (z, e)
              (record {
                valid = v;
                cap_same = refl;
                appended = sym (append-nil (contents self));
                moved = ground arith;
                number = ground arith;
              })
        | inr e ↦
            rw (z, e)
              (record {
                valid = record {
                  storage =
                      omega
                        (arith, v.storage, length-splice self.store self.write_pos (take n item));
                  inside = ground (arith, v.inside);
                };
                cap_same = refl;
                moved = refl;
                appended =
                    take-splice self.store self.write_pos (take n item) (self.write_pos + n)
                      (omega arith) (omega arith);
                number = ground arith;
              })
      ]
    ]

abbrev pub joined : List Bytes → Bytes
joined [] = []
joined (x ∷ xs) = x ++ joined xs

-- The sum of the numbers that the writes return, and the buffer after them.
unfoldable pub write_all : MsgBuf → List Bytes → ℕ × MsgBuf
write_all self [] = (0, self)
write_all self (item ∷ items) =
    let (n, after) = write (some self) (some item) (length item) in
    let (total, final) = write_all (left_by after self) items in (n + total, final)

cut :
    (c i r : Bytes) (n cap : ℕ)
    → n ≡ min (length i) (cap - length c)
    → length c ≤ cap
    → take cap ((c ++ take n i) ++ r) ≡ take cap (c ++ (i ++ r))
cut c i r n cap e h = elim (Bool-cases (ltb n (length i))) [
  | inl less ↦
      let whole : length (c ++ take n i) ≡ cap =
        ground (arith, length-append c (take n i), length-take n i) in
      let parts : c ++ (i ++ r) ≡ (c ++ take n i) ++ (drop n i ++ r) =
        ap (λ (l : Bytes). c ++ (l ++ r)) (sym (take-append-drop n i))
        ∙ ap (◌++◌ c) (append_assoc (take n i) (drop n i) r)
        ∙ sym (append_assoc c (take n i) (drop n i ++ r)) in
      take_of_append (c ++ take n i) r cap whole
      ∙ sym (take_of_append (c ++ take n i) (drop n i ++ r) cap whole)
      ∙ ap (take cap) (sym parts)
  | inr all ↦
      ap (λ (l : Bytes). take cap ((c ++ l) ++ r)) (take-length n i (ground arith))
      ∙ ap (take cap) (append_assoc c i r)
]

-- Writes to a valid message buffer, one after the other: what is then written is what was there with the
-- items behind it, in order, cut at the capacity. The numbers returned sum up to what was added, and the
-- buffer is valid.
pub write_all_appends :
    (self : MsgBuf) (items : List Bytes)
    → IsValid self
    → let (total, final) = write_all self items in
      (contents final ≡ take self.cap (contents self ++ joined items))
      × (final.write_pos ≡ self.write_pos + total)
      × IsValid final
unfolding write_all
write_all_appends self [] v = (
  sym (
      rw (append-nil (contents self))
        (take-length self.cap (contents self) (omega (arith, length-contents self v, v.inside)))),
  omega arith,
  v,
)
write_all_appends self (item ∷ items) v =
    let (n, called) = write (some self) (some item) (length item) in
    let after = left_by called self in
    let w = write-Written self item v in
    let (text, total, valid) = write_all_appends after items w.valid in
    let both = ap₂ (λ (cap : ℕ) (l : Bytes). take cap (l ++ joined items)) w.cap_same w.appended in
    let number : n ≡ min (length item) (self.cap - length (contents self)) =
      omega (arith, w.number, length-contents self v) in
    (
      text
          ∙ both
          ∙ cut (contents self) item (joined items) n self.cap number
              (omega (arith, length-contents self v, v.inside)),
      omega (arith, total, w.moved),
      valid,
    )
