-- ===== src/Opt/Parser/Ready.antt =====
-- Where a parser stands between two calls of ct_opt_next, and what a call takes away.
use coter.Base.{
  ℕ, zero, suc, ◌+◌, ◌≤◌, ◌<◌, ◌≡◌, ◌⊎◌, inl, inr, refl, sym, subst, ◌∙◌, arith, Bool, true, false,
  Option, none, some, List, [], ◌∷◌, ℤ, pos, Bytes, drop, length, ◌==◌, if◌then◌else◌, Bool-cases,
}
use coter.Opt.Options.{
  ArgType, nothing, required, optional, done, OptDef, char_at, to_int_char, is_dashdash, is_short,
  is_long,
}
use coter.Opt.Parser.{after_eq}
use coter.Opt.Parser.Spec.{
  View, Result, short_of, short_step, find_def, long_of, long_at, long_step, pass, step,
}

-- the place in a cluster lies in the first option, which is short, or is 0
abbrev pub Ready : ℕ → List Bytes → Type 0
Ready sub [] = sub ≡ 0
Ready sub (x ∷ xs) =
    if is_dashdash x
    then sub ≡ 0
    else if is_short x
    then sub + 1 < length x
    else if is_long x
    then sub ≡ 0
    else Ready sub xs

abbrev pub total : List Bytes → ℕ
total [] = 0
total (x ∷ xs) = suc (length x) + total xs

char_at_inside : (s : Bytes) (i : ℕ) → (char_at s i == 0) ≡ false → i < length s
unfolding char_at
char_at_inside [] i e = absurd (cc)
char_at_inside (c ∷ s) zero e = omega arith
char_at_inside (c ∷ s) (suc i) e = omega (arith, char_at_inside s i e)

is_short_inside : (s : Bytes) → is_short s ≡ true → 1 < length s
unfolding is_short
is_short_inside s e = char_at_inside s 1 (ground arith)

Ready-anew : (xs : List Bytes) → Ready 0 xs
Ready-anew [] = refl
Ready-anew (x ∷ xs) = elim (Bool-cases (is_dashdash x)) [
  | inl d ↦ rw d refl
  | inr d ↦ elim (Bool-cases (is_short x)) [
    | inl s ↦ rw (d, s) (omega (arith, is_short_inside x s))
    | inr s ↦ elim (Bool-cases (is_long x)) [
      | inl l ↦ rw (d, s, l) refl
      | inr l ↦ rw (d, s, l) (Ready-anew xs)
    ]
  ]
]

pub Ready-afresh : (sub : ℕ) (xs : List Bytes) → sub ≡ 0 → Ready sub xs
Ready-afresh sub xs e = subst (λ n. Ready n xs) (sym e) (Ready-anew xs)

-- what a call that did not find the end leaves
abbrev pub Advances : View → List Bytes → Result → Type 0
Advances v args r =
    Ready r.3.subind r.3.args
    × ((r.0 ≡ done) ⊎ (total r.3.args + v.subind < total args + r.3.subind))
    × (length r.3.args ≤ length args)

short_of-Advances :
    (type : Option ArgType) (last : Bool) (c : ℤ) (s : Bytes) (xs : List Bytes) (v w : View)
    → w.subind ≡ v.subind
    → is_dashdash s ≡ false
    → is_short s ≡ true
    → v.subind + 1 < length s
    → (last ≡ true) ⊎ (v.subind + 2 < length s)
    → Advances v (s ∷ xs) (short_of type last c s xs w)
short_of-Advances none last c s xs v w e d k h l = (Ready-anew xs, inr (omega arith), omega arith)
short_of-Advances (some nothing) true c s xs v w e d k h l =
    (Ready-anew xs, inr (omega arith), omega arith)
short_of-Advances (some nothing) false c s xs v w e d k h (inl l) = absurd (cc)
short_of-Advances (some nothing) false c s xs v w e d k h (inr l) =
    (rw (d, k) (omega arith), inr (omega arith), omega arith)
short_of-Advances (some required) false c s xs v w e d k h l =
    (Ready-anew xs, inr (omega arith), omega arith)
short_of-Advances (some required) true c s [] v w e d k h l = (refl, inr (omega arith), omega arith)
short_of-Advances (some required) true c s (y ∷ ys) v w e d k h l =
    (Ready-anew ys, inr (omega arith), omega arith)
short_of-Advances (some optional) false c s xs v w e d k h l =
    (Ready-anew xs, inr (omega arith), omega arith)
short_of-Advances (some optional) true c s xs v w e d k h l =
    (Ready-anew xs, inr (omega arith), omega arith)

short_step-Advances :
    (defs : List OptDef) (s : Bytes) (xs : List Bytes) (v : View)
    → is_dashdash s ≡ false
    → is_short s ≡ true
    → v.subind + 1 < length s
    → Advances v (s ∷ xs) (short_step defs s xs v)
unfolding short_step
short_step-Advances defs s xs v d k h =
    let c = char_at s (v.subind + 1) in
    let place : ((char_at s (v.subind + 2) == 0) ≡ true) ⊎ (v.subind + 2 < length s) =
      elim (Bool-cases (char_at s (v.subind + 2) == 0)) [
        | inl e ↦ inl e
        | inr e ↦ inr (char_at_inside s (v.subind + 2) e)
      ] in
    short_of-Advances _ (char_at s (v.subind + 2) == 0) (to_int_char c) s xs v
      (record v { optopt = to_int_char c; optarg = none }) refl d k h place

long_of-Advances :
    (type : ArgType) (val : Option Bytes) (id : ℤ) (s : Bytes) (xs : List Bytes) (v w : View)
    → v.subind ≡ 0
    → w.subind ≡ v.subind
    → Advances v (s ∷ xs) (long_of type val id s xs w)
long_of-Advances nothing (some x) id s xs v w z e =
    (Ready-afresh w.subind xs (e ∙ z), inr (omega arith), omega arith)
long_of-Advances required (some x) id s xs v w z e =
    (Ready-afresh w.subind xs (e ∙ z), inr (omega arith), omega arith)
long_of-Advances optional (some x) id s xs v w z e =
    (Ready-afresh w.subind xs (e ∙ z), inr (omega arith), omega arith)
long_of-Advances nothing none id s xs v w z e =
    (Ready-afresh w.subind xs (e ∙ z), inr (omega arith), omega arith)
long_of-Advances required none id s [] v w z e = (e ∙ z, inr (omega arith), omega arith)
long_of-Advances required none id s (y ∷ ys) v w z e =
    (Ready-afresh w.subind ys (e ∙ z), inr (omega arith), omega arith)
long_of-Advances optional none id s xs v w z e =
    (Ready-afresh w.subind xs (e ∙ z), inr (omega arith), omega arith)

long_step-Advances :
    (defs : List OptDef) (s : Bytes) (xs : List Bytes) (v : View)
    → v.subind ≡ 0
    → Advances v (s ∷ xs) (long_step defs s xs v)
unfolding long_step
long_step-Advances defs s xs v z = found (find_def defs (drop 2 s))
  where
    found :
        (o : Option OptDef)
        → Advances v (s ∷ xs) (long_at o s xs (record v { optopt = pos 0; optarg = none }))
    found none = (Ready-afresh v.subind xs z, inr (omega arith), omega arith)
    found (some d) =
        long_of-Advances d.argtype (after_eq (drop 2 s)) d.shortname s xs v
          (record v { optopt = d.shortname; optarg = none }) z refl

pub step-Advances :
    (permute : Bool) (defs : List OptDef) (v : View) (args : List Bytes)
    → Ready v.subind args
    → Advances v args (step permute defs v args)
unfolding step
step-Advances permute defs v [] h = (h, inl refl, omega arith)
step-Advances permute defs v (x ∷ xs) h = elim (Bool-cases (is_dashdash x)) [
  | inl d ↦ rw d (Ready-afresh v.subind xs (rw d at h), inl refl, omega arith)
  | inr d ↦ elim (Bool-cases (is_short x)) [
    | inl s ↦ rw (d, s) (short_step-Advances defs x xs v d s (rw (d, s) at h))
    | inr s ↦ elim (Bool-cases (is_long x)) [
      | inl l ↦ rw (d, s, l) (long_step-Advances defs x xs v (rw (d, s, l) at h))
      | inr l ↦
          let inner = step-Advances permute defs v xs (rw (d, s, l) at h) in
          rw (d, s, l) (passed permute d s l inner)
    ]
  ]
]
  where
    passed :
        (b : Bool)
        → is_dashdash x ≡ false
        → is_short x ≡ false
        → is_long x ≡ false
        → Advances v xs (step permute defs v xs)
        → Advances v (x ∷ xs) (
            if b
            then pass (x ∷ []) (step permute defs v xs)
            else (done, none, [], record v { args = x ∷ xs }))
    passed true d s l (ready, inl e, n) = (rw (d, s, l) ready, inl e, omega arith)
    passed true d s l (ready, inr e, n) = (rw (d, s, l) ready, inr (omega (arith, e)), omega arith)
    passed false d s l _ = (h, inl refl, omega arith)
