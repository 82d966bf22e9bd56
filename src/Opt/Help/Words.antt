-- ===== src/Opt/Help/Words.antt =====
-- The words of a description, as they come out of opt_help_desc.
use coter.Base.{
  ℕ, zero, suc, ◌+◌, ◌<◌, ◌≡◌, refl, sym, ap, subst, ◌∙◌, arith, Bool, true, ◌||◌, Option, none,
  some, List, [], ◌∷◌, ◌++◌, append_assoc, Bytes, length, drop, ltb, ◌==◌, if◌then◌else◌,
  Bool-cases, inl, inr,
}
use coter.Opt.Help.{
  word_of, skip_spaces, spaces, before_all, new_line, breaks, gap, place, desc_loop, help_desc,
}
use coter.Opt.Help.Rounds.{round_less}

-- between words there are spaces and line ends
abbrev pub is_gap : ℕ → Bool
is_gap c = c == 32 || c == 10

abbrev pub with_word : Bytes → List Bytes → List Bytes
with_word [] ws = ws
with_word (x ∷ xs) ws = (x ∷ xs) ∷ ws

-- the words of the text, with `cur` read of the first
abbrev pub words_from : Bytes → Bytes → List Bytes
words_from cur [] = with_word cur []
words_from cur (c ∷ s) =
    let next = words_from [] s in
    let more = words_from (cur ++ c ∷ []) s in if is_gap c then with_word cur next else more

abbrev pub words : Bytes → List Bytes
words s = words_from [] s

append_nil : (xs : Bytes) → xs ++ [] ≡ xs
append_nil [] = refl
append_nil (x ∷ xs) = ap (◌∷◌ x) (append_nil xs)

-- nothing, or a gap first
abbrev IsApart : Bytes → Type 0
IsApart [] = Unit
IsApart (c ∷ s) = is_gap c ≡ true

words_from-word :
    (s rest cur : Bytes) → words_from cur (word_of s ++ rest) ≡ words_from (cur ++ word_of s) rest
unfolding word_of
words_from-word [] rest cur = ap (λ w. words_from w rest) (sym (append_nil cur))
words_from-word (c ∷ s) rest cur = elim (Bool-cases (is_gap c)) [
  | inl e ↦ rw e (ap (λ w. words_from w rest) (sym (append_nil cur)))
  | inr e ↦
      rw (e, e)
        (words_from-word s rest (cur ++ c ∷ [])
          ∙ ap (λ w. words_from w rest) (append_assoc cur (c ∷ []) (word_of s)))
]

word-drop : (s : Bytes) → word_of s ++ drop (length (word_of s)) s ≡ s
unfolding word_of
word-drop [] = refl
word-drop (c ∷ s) = elim (Bool-cases (is_gap c)) [
  | inl e ↦ rw e refl
  | inr e ↦ rw e (ap (◌∷◌ c) (word-drop s))
]

drop-IsApart : (s : Bytes) → IsApart (drop (length (word_of s)) s)
unfolding word_of
drop-IsApart [] = tt
drop-IsApart (c ∷ s) = elim (Bool-cases (is_gap c)) [
  | inl e ↦ rw e e
  | inr e ↦ rw e (drop-IsApart s)
]

words_from-apart : (w s : Bytes) → IsApart s → words_from w s ≡ with_word w (words s)
words_from-apart w [] h = refl
words_from-apart w (c ∷ s) h = rw h refl

-- the first word and the others
words-split : (s : Bytes) → words s ≡ with_word (word_of s) (words (drop (length (word_of s)) s))
words-split s =
    let left = drop (length (word_of s)) s in
    ap words (sym (word-drop s))
    ∙ words_from-word s left []
    ∙ words_from-apart (word_of s) left (drop-IsApart s)

words-skip_spaces : (s : Bytes) → words (skip_spaces s) ≡ words s
unfolding skip_spaces
words-skip_spaces [] = refl
words-skip_spaces (c ∷ s) = elim (Bool-cases (c == 32)) [
  | inl e ↦ rw e (words-skip_spaces s)
  | inr e ↦ let same : skip_spaces (c ∷ s) ≡ c ∷ s = rw e refl in ap words same
]

words-spaces : (n : ℕ) (s : Bytes) → words (spaces n ++ s) ≡ words s
words-spaces zero s = refl
words-spaces (suc n) s = words-spaces n s

words-gap : (col avail at wlen : ℕ) (s : Bytes) → words (gap col avail at wlen ++ s) ≡ words s
words-gap col avail at wlen s = elim (Bool-cases (breaks avail at wlen)) [
  | inl e ↦ rw e (words-spaces col s)
  | inr e ↦ elim (Bool-cases (ltb 0 at)) [ inl b ↦ rw (e, b) refl | inr b ↦ rw (e, b) refl ]
]

gap-IsApart : (col avail at wlen : ℕ) (s : Bytes) → 0 < at → IsApart (gap col avail at wlen ++ s)
gap-IsApart col avail at wlen s h =
    let behind : ltb 0 at ≡ true = ground arith in
    elim (Bool-cases (breaks avail at wlen)) [ inl e ↦ rw e refl | inr e ↦ rw (e, behind) refl ]

-- What the loop prints when `at` columns of a line are taken: it has the words of the text, and does not
-- go on with the word that stands there.
abbrev pub Kept : ℕ → Bytes → Option Bytes → Type 0
Kept at s none = ⊥
Kept at s (some out) = (words out ≡ words s) × (0 < at → IsApart out)

Kept-newline :
    (s : Bytes) (col at : ℕ) (o : Option Bytes)
    → Kept 0 s o
    → Kept at (10 ∷ s) (before_all (new_line col) o)
Kept-newline s col at none k = absurd k
Kept-newline s col at (some out) k = (words-spaces col out ∙ k.0, λ _. refl)

printed_word :
    (w out : Bytes) → (0 < length w → IsApart out) → words_from w out ≡ with_word w (words out)
printed_word [] out h = refl
printed_word (x ∷ w) out h = words_from-apart (x ∷ w) out (h (omega arith))

Kept-word :
    (s : Bytes) (col avail at : ℕ) (o : Option Bytes)
    → Kept (place avail at (length (word_of s))) (skip_spaces (drop (length (word_of s)) s)) o
    → Kept at s (before_all (gap col avail at (length (word_of s)) ++ word_of s) o)
Kept-word s col avail at none k = absurd k
Kept-word s col avail at (some out) k =
    let word = word_of s in
    let wlen = length word in
    let before = gap col avail at wlen in
    let left = drop wlen s in
    let whole = append_assoc before word out in
    (
      ap words whole
          ∙ words-gap col avail at wlen (word ++ out)
          ∙ words_from-word s out []
          ∙ printed_word word out (λ p. k.1 (ground arith))
          ∙ ap (with_word word) (k.0 ∙ words-skip_spaces left)
          ∙ sym (words-split s),
      λ p. subst IsApart (sym whole) (gap-IsApart col avail at wlen (word ++ out) p),
    )

desc_loop-Kept :
    (fuel : ℕ) (desc : Bytes) (at col avail : ℕ)
    → length desc < fuel
    → Kept at desc (desc_loop fuel desc at col avail)
unfolding desc_loop
desc_loop-Kept zero desc at col avail n = absurd (omega arith)
desc_loop-Kept (suc fuel) [] at col avail n = (refl, λ _. refl)
desc_loop-Kept (suc fuel) (c ∷ s) at col avail n = elim (Bool-cases (c == 10)) [
  | inl e ↦
      let line : c ≡ 10 = ground arith in
      rw line (
        Kept-newline s col at (desc_loop fuel s 0 col avail)
          (desc_loop-Kept fuel s 0 col avail (omega arith)))
  | inr e ↦
      let wlen = length (word_of (c ∷ s)) in
      let left = skip_spaces (drop wlen (c ∷ s)) in
      let next = place avail at wlen in
      rw e (
        Kept-word (c ∷ s) col avail at (desc_loop fuel left next col avail)
          (desc_loop-Kept fuel left next col avail (omega (arith, round_less c s e))))
]

pub help_desc-Kept : (desc : Bytes) (col width : ℕ) → Kept 0 desc (help_desc desc col width)
unfolding help_desc
help_desc-Kept desc col width = desc_loop-Kept (length desc + 1) desc 0 col _ (omega arith)
