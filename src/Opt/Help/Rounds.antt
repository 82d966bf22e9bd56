-- ===== src/Opt/Help/Rounds.antt =====
-- Each round of the loop of opt_help_desc leaves less of the description.
use coter.Base.{
  ℕ, zero, suc, ◌≤◌, ◌<◌, ◌≡◌, arith, false, [], ◌∷◌, Bytes, length, drop, ◌==◌, Bool-cases, inl,
  inr,
}
use coter.Opt.Help.{word_of, skip_spaces}

length-skip_spaces : (s : Bytes) → length (skip_spaces s) ≤ length s
unfolding skip_spaces
length-skip_spaces [] = omega arith
length-skip_spaces (c ∷ s) = elim (Bool-cases (c == 32)) [
  | inl e ↦ rw e (omega (arith, length-skip_spaces s))
  | inr e ↦ rw e (omega arith)
]

length-drop_le : (n : ℕ) (s : Bytes) → length (drop n s) ≤ length s
length-drop_le zero s = omega arith
length-drop_le (suc n) [] = omega arith
length-drop_le (suc n) (c ∷ s) = omega (arith, length-drop_le n s)

-- a round leaves less of the text
pub round_less :
    (c : ℕ) (s : Bytes)
    → (c == 10) ≡ false
    → length (skip_spaces (drop (length (word_of (c ∷ s))) (c ∷ s))) < suc (length s)
unfolding word_of skip_spaces
round_less c s h = elim (Bool-cases (c == 32)) [
  | inl e ↦ rw e (rw e (omega (arith, length-skip_spaces s)))
  | inr e ↦
      rw (e, h)
        (omega (
          arith,
          length-skip_spaces (drop (length (word_of s)) s),
          length-drop_le (length (word_of s)) s,
        ))
]
