-- ===== src/Opt/Help/Lines.antt =====
-- The lines of a description.
use coter.Base.{
  ℕ, zero, suc, ◌+◌, ◌≤◌, ◌<◌, ◌≡◌, subst, arith, false, ◌||◌, Option, none, some, [], ◌∷◌, ◌++◌,
  append_assoc, Bytes, length, drop, ltb, ◌==◌, if◌then◌else◌, Bool-cases, inl, inr,
}
use coter.Opt.Help.{
  word_of, skip_spaces, spaces, before_all, new_line, breaks, gap, place, desc_loop, avail_of,
  help_desc,
}
use coter.Opt.Help.Rounds.{round_less}
use coter.Opt.Help.Words.{words, Kept, help_desc-Kept}

-- no line of the text, whose first goes on after `at` columns, has more columns than `limit`
abbrev pub Fits : ℕ → ℕ → Bytes → Type 0
Fits limit at [] = Unit
Fits limit at (c ∷ out) =
    if c == 10 then Fits limit 0 out else ((suc at ≤ limit) × Fits limit (suc at) out)

-- the length of the longest word
abbrev pub longest : Bytes → ℕ
longest [] = 0
longest (c ∷ s) =
    let rest = longest s in
    let here = length (word_of (c ∷ s)) in if ltb rest here then here else rest

longest-drop : (n : ℕ) (s : Bytes) → longest (drop n s) ≤ longest s
longest-drop zero s = omega arith
longest-drop (suc n) [] = omega arith
longest-drop (suc n) (c ∷ s) = ground (arith, longest-drop n s)

longest-skip_spaces : (s : Bytes) → longest (skip_spaces s) ≤ longest s
unfolding skip_spaces
longest-skip_spaces [] = omega arith
longest-skip_spaces (c ∷ s) = elim (Bool-cases (c == 32)) [
  | inl e ↦ rw e (ground (arith, longest-skip_spaces s))
  | inr e ↦ rw e (omega arith)
]

longest-word : (c : ℕ) (s : Bytes) → length (word_of (c ∷ s)) ≤ longest (c ∷ s)
longest-word c s = ground arith

module _ (limit : ℕ) where
  Fits-word :
      (s rest : Bytes) (at : ℕ)
      → at + length (word_of s) ≤ limit
      → Fits limit (at + length (word_of s)) rest
      → Fits limit at (word_of s ++ rest)
  unfolding word_of
  Fits-word [] rest at h f = subst (λ i. Fits limit i rest) (omega arith) f
  Fits-word (c ∷ s) rest at h f = elim (Bool-cases (c == 32 || c == 10)) [
    | inl e ↦ rw e (subst (λ i. Fits limit i rest) (omega arith) (rw e at f))
    | inr e ↦
        let g = rw e at f in
        let le : at + suc (length (word_of s)) ≤ limit = rw e at h in
        let no_break : (c == 10) ≡ false = ground arith in
        rw (e, no_break)
          (
            omega arith,
            Fits-word s rest (suc at) (omega arith)
                (subst (λ i. Fits limit i rest) (omega arith) g),
          )
  ]

  Fits-spaces :
      (n : ℕ) (rest : Bytes) (at : ℕ)
      → at + n ≤ limit
      → Fits limit (at + n) rest
      → Fits limit at (spaces n ++ rest)
  Fits-spaces zero rest at h f = subst (λ i. Fits limit i rest) (omega arith) f
  Fits-spaces (suc n) rest at h f = (
    omega arith,
    Fits-spaces n rest (suc at) (omega arith) (subst (λ i. Fits limit i rest) (omega arith) f),
  )

  Fits-same : (i j : ℕ) (rest : Bytes) → i ≡ j → Fits limit i rest → Fits limit j rest
  Fits-same i j rest e f = subst (λ k. Fits limit k rest) e f

  -- a word with what goes before it
  Fits-round :
      (col avail at : ℕ) (s rest : Bytes)
      → col + avail ≤ limit
      → col + length (word_of s) ≤ limit
      → col + at ≤ limit
      → Fits limit (col + place avail at (length (word_of s))) rest
      → Fits limit (col + at) ((gap col avail at (length (word_of s)) ++ word_of s) ++ rest)
  Fits-round col avail at s rest a w h f =
      let wlen = length (word_of s) in
      elim (Bool-cases (breaks avail at wlen)) [
        | inl e ↦
            let there : col + place avail at wlen ≡ col + wlen = ground arith in
            let g = Fits-same (col + place avail at wlen) (col + wlen) rest there f in
            rw (e, append_assoc (spaces col) (word_of s) rest)
              (Fits-spaces col (word_of s ++ rest) 0 (omega arith) (
                Fits-same col (0 + col) (word_of s ++ rest) (omega arith)
                  (Fits-word s rest col w g)))
        | inr e ↦ elim (Bool-cases (ltb 0 at)) [
          | inl b ↦
              let there : col + place avail at wlen ≡ suc (col + at) + wlen = ground arith in
              let room : suc (col + at) + wlen ≤ limit = ground arith in
              rw (e, b)
                (
                  (ground arith),
                  Fits-word s rest (suc (col + at)) room
                      (Fits-same (col + place avail at wlen) (suc (col + at) + wlen) rest there f),
                )
          | inr b ↦
              let there : col + place avail at wlen ≡ col + at + wlen = ground arith in
              let room : col + at + wlen ≤ limit = ground arith in
              rw (e, b)
                (Fits-word s rest (col + at) room
                  (Fits-same (col + place avail at wlen) (col + at + wlen) rest there f))
        ]
      ]

  place_le :
      (col avail at wlen : ℕ)
      → col + avail ≤ limit
      → col + wlen ≤ limit
      → col + place avail at wlen ≤ limit
  place_le col avail at wlen a w = ground arith

  -- what the loop prints: it ends, and its lines fit
  abbrev pub Printed : ℕ → Option Bytes → Type 0
  Printed at none = ⊥
  Printed at (some out) = Fits limit at out

  Printed-same : (i j : ℕ) (o : Option Bytes) → i ≡ j → Printed i o → Printed j o
  Printed-same i j o e f = subst (λ k. Printed k o) e f

  Printed-newline :
      (col at : ℕ) (o : Option Bytes)
      → col ≤ limit
      → Printed (col + 0) o
      → Printed (col + at) (before_all (new_line col) o)
  Printed-newline col at none h p = absurd p
  Printed-newline col at (some out) h p =
      Fits-spaces col out 0 (omega arith) (Fits-same (col + 0) (0 + col) out (omega arith) p)

  Printed-more :
      (col avail at : ℕ) (s : Bytes) (o : Option Bytes)
      → col + avail ≤ limit
      → col + length (word_of s) ≤ limit
      → col + at ≤ limit
      → Printed (col + place avail at (length (word_of s))) o
      → Printed (col + at) (before_all (gap col avail at (length (word_of s)) ++ word_of s) o)
  Printed-more col avail at s none a w h p = absurd p
  Printed-more col avail at s (some out) a w h p = Fits-round col avail at s out a w h p

  desc_loop-Fits :
      (fuel : ℕ) (desc : Bytes) (at col avail : ℕ)
      → length desc < fuel
      → col + avail ≤ limit
      → col + longest desc ≤ limit
      → col + at ≤ limit
      → Printed (col + at) (desc_loop fuel desc at col avail)
  unfolding desc_loop
  desc_loop-Fits zero desc at col avail n a w h = absurd (omega arith)
  desc_loop-Fits (suc fuel) [] at col avail n a w h = tt
  desc_loop-Fits (suc fuel) (c ∷ s) at col avail n a w h = elim (Bool-cases (c == 10)) [
    | inl e ↦ rw e (
        Printed-newline col at (desc_loop fuel s 0 col avail) (omega arith)
          (desc_loop-Fits fuel s 0 col avail (omega arith) a (ground (arith, w)) (omega arith)))
    | inr e ↦
        let wlen = length (word_of (c ∷ s)) in
        let left = skip_spaces (drop wlen (c ∷ s)) in
        let short : col + longest left ≤ limit =
          omega (arith, w, longest-skip_spaces (drop wlen (c ∷ s)), longest-drop wlen (c ∷ s)) in
        let room : col + wlen ≤ limit = omega (arith, w, longest-word c s) in
        rw e (
          Printed-more col avail at (c ∷ s) (desc_loop fuel left (place avail at wlen) col avail) a
            room h
            (desc_loop-Fits fuel left (place avail at wlen) col avail
              (omega (arith, round_less c s e)) a short (place_le col avail at wlen a room)))
  ]

  -- what is printed of a description: some text with its words, and with lines that fit
  abbrev pub Described : Bytes → ℕ → Option Bytes → Type 0
  Described desc at none = ⊥
  Described desc at (some out) = Fits limit at out × (words out ≡ words desc)

  both-Described :
      (desc : Bytes) (at : ℕ) (o : Option Bytes)
      → Printed at o
      → Kept 0 desc o
      → Described desc at o
  both-Described desc at none p k = absurd p
  both-Described desc at (some out) p k = (p, k.0)

-- its lines fit, where the column with the width left, or with the longest word, does
help_desc-Printed :
    (desc : Bytes) (col width limit : ℕ)
    → col + avail_of col width ≤ limit
    → col + longest desc ≤ limit
    → Printed limit col (help_desc desc col width)
unfolding help_desc
help_desc-Printed desc col width limit a w =
    Printed-same limit (col + 0) col (help_desc desc col width) (omega arith) (
      desc_loop-Fits limit (length desc + 1) desc 0 col (avail_of col width) (omega arith) a w
        (omega arith))

-- The description of an option is printed whatever the text is, the loop's fuel being one more than its
-- length. What is printed has the words of the text, in their order and none twice or broken. From its
-- column on, none of its lines has more columns than `limit`, if the column with the width left to it,
-- or with the longest word, has no more.
pub help_desc-Described :
    (desc : Bytes) (col width limit : ℕ)
    → col + avail_of col width ≤ limit
    → col + longest desc ≤ limit
    → Described limit desc col (help_desc desc col width)
help_desc-Described desc col width limit a w =
    both-Described limit desc col (help_desc desc col width)
      (help_desc-Printed desc col width limit a w) (help_desc-Kept desc col width)
