-- ===== src/Opt/Parser/Kinds.antt =====
-- The loop of ct_opt_next and the parser on lists, by the kind of the argument.
use coter.Base.{
  ℕ, zero, suc, ◌≡◌, refl, ap, Bool, true, false, ◌||◌, Option, none, some, List, [], ◌∷◌, ◌++◌,
  append_assoc, Bytes, if◌then◌else◌,
}
use coter.Opt.Options.{done, OptDef, is_dashdash, is_short, is_long}
use coter.Opt.Parser.{ended, dashdash, plain, option, scan}
use coter.Opt.Parser.Spec.{View, Result, short_step, long_step, pass, step}

-- the loop at an argument, by its kind
module _ (fuel : ℕ) (permute : Bool) (argv : ℕ → Option Bytes) (i : ℕ) (x : Bytes)
    (at : argv i ≡ some x) where
  pub scan_dashdash : is_dashdash x ≡ true → scan (suc fuel) permute argv i ≡ dashdash i
  unfolding scan
  scan_dashdash d = rw (at, d) refl

  pub scan_option :
      is_dashdash x ≡ false
      → (is_short x || is_long x) ≡ true
      → scan (suc fuel) permute argv i ≡ option i
  unfolding scan
  scan_option d o = rw (at, d, o) refl

  pub scan_passes :
      is_dashdash x ≡ false
      → is_short x ≡ false
      → is_long x ≡ false
      → scan (suc fuel) permute argv i
        ≡ (if permute then scan fuel permute argv (suc i) else plain i)
  unfolding scan
  scan_passes d o l = rw (at, d, o, l) refl

pub scan_end :
    (fuel : ℕ) (permute : Bool) (argv : ℕ → Option Bytes) (i : ℕ)
    → argv i ≡ none
    → scan fuel permute argv i ≡ ended
unfolding scan
scan_end zero permute argv i e = refl
scan_end (suc fuel) permute argv i e = rw e refl

-- the list's answer at an argument
module _ (permute : Bool) (defs : List OptDef) (v : View) (x : Bytes) (xs : List Bytes) where
  pub step_dashdash :
      is_dashdash x ≡ true
      → step permute defs v (x ∷ xs) ≡ (done, none, x ∷ [], record v { args = xs })
  unfolding step
  step_dashdash d = rw d refl

  pub step_short :
      is_dashdash x ≡ false
      → is_short x ≡ true
      → step permute defs v (x ∷ xs) ≡ short_step defs x xs v
  unfolding step
  step_short d o = rw (d, o) refl

  pub step_long :
      is_dashdash x ≡ false
      → is_short x ≡ false
      → is_long x ≡ true
      → step permute defs v (x ∷ xs) ≡ long_step defs x xs v
  unfolding step
  step_long d o l = rw (d, o, l) refl

  pub step_plain :
      is_dashdash x ≡ false
      → is_short x ≡ false
      → is_long x ≡ false
      → step permute defs v (x ∷ xs) ≡ (
          if permute
          then pass (x ∷ []) (step permute defs v xs)
          else (done, none, [], record v { args = x ∷ xs }))
  unfolding step
  step_plain d o l = rw (d, o, l) refl

pub pass_twice :
    (ps : List Bytes) (x : Bytes) (r : Result) → pass (ps ++ x ∷ []) r ≡ pass ps (pass (x ∷ []) r)
pass_twice ps x (code, id, taken, v) =
    ap (λ l. let w = record v { args = l } in (code, id, taken, w))
      (append_assoc ps (x ∷ []) v.args)
