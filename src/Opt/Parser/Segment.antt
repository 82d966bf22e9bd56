-- ===== src/Opt/Parser/Segment.antt =====
-- Stretches of the array of arguments, and how moving some of them changes what the array holds.
use coter.Base.{
  ℕ, suc, ◌+◌, ◌≤◌, ◌<◌, ◌≡◌, refl, ap, ◌∙◌, arith, true, false, Option, none, some, List, [], ◌∷◌,
  ◌++◌, Bytes, length, ltb, if◌then◌else◌, Bool-cases, inl, inr, subst,
}
use coter.Opt.Parser.{opt_permute}
use coter.Opt.Parser.Permute.{
  opt_permute-front, opt_permute-middle, opt_permute-above, opt_permute-below,
}

-- the arguments from an index to the null pointer
abbrev pub HasArgs : (ℕ → Option Bytes) → ℕ → List Bytes → Type 0
HasArgs argv i [] = argv i ≡ none
HasArgs argv i (x ∷ xs) = (argv i ≡ some x) × HasArgs argv (suc i) xs

-- so many of them
abbrev Holds : (ℕ → Option Bytes) → ℕ → List Bytes → Type 0
Holds argv i [] = Unit
Holds argv i (x ∷ xs) = (argv i ≡ some x) × Holds argv (suc i) xs

module _ (argv : ℕ → Option Bytes) where
  HasArgs-front : (i : ℕ) (xs ys : List Bytes) → HasArgs argv i (xs ++ ys) → Holds argv i xs
  HasArgs-front i [] ys h = tt
  HasArgs-front i (x ∷ xs) ys h = (h.0, HasArgs-front (suc i) xs ys h.1)

  pub HasArgs-drop :
      (i : ℕ) (xs ys : List Bytes) → HasArgs argv i (xs ++ ys) → HasArgs argv (i + length xs) ys
  HasArgs-drop i [] ys h = subst (λ k. HasArgs argv k ys) (let e : i ≡ i + 0 = omega arith in e) h
  HasArgs-drop i (x ∷ xs) ys h =
      subst (λ k. HasArgs argv k ys)
        (let e : suc i + length xs ≡ i + suc (length xs) = omega arith in e)
        (HasArgs-drop (suc i) xs ys h.1)

  Holds-join :
      (i : ℕ) (xs ys : List Bytes)
      → Holds argv i xs
      → HasArgs argv (i + length xs) ys
      → HasArgs argv i (xs ++ ys)
  Holds-join i [] ys h k = subst (λ k. HasArgs argv k ys) (let e : i + 0 ≡ i = omega arith in e) k
  Holds-join i (x ∷ xs) ys h k = (
    h.0,
    Holds-join (suc i) xs ys h.1 (
        subst (λ k. HasArgs argv k ys)
          (let e : i + suc (length xs) ≡ suc i + length xs = omega arith in e) k),
  )

module _ (argv argv' : ℕ → Option Bytes) where
  Holds-elsewhere :
      (i j : ℕ) (xs : List Bytes)
      → ((k : ℕ) → k < length xs → argv' (j + k) ≡ argv (i + k))
      → Holds argv i xs
      → Holds argv' j xs
  Holds-elsewhere i j [] f h = tt
  Holds-elsewhere i j (x ∷ xs) f h =
      let here : argv' j ≡ argv i =
        ap argv' (omega arith) ∙ f 0 (omega arith) ∙ ap argv (omega arith) in
      (
        here ∙ h.0,
        Holds-elsewhere (suc i) (suc j) xs
            (λ k p. ap argv' (omega arith) ∙ f (suc k) (omega arith) ∙ ap argv (omega arith)) h.1,
      )

  HasArgs-elsewhere :
      (i j : ℕ) (xs : List Bytes)
      → ((k : ℕ) → argv' (j + k) ≡ argv (i + k))
      → HasArgs argv i xs
      → HasArgs argv' j xs
  HasArgs-elsewhere i j [] f h = ap argv' (omega arith) ∙ f 0 ∙ ap argv (omega arith) ∙ h
  HasArgs-elsewhere i j (x ∷ xs) f h = (
    ap argv' (omega arith) ∙ f 0 ∙ ap argv (omega arith) ∙ h.0,
    HasArgs-elsewhere (suc i) (suc j) xs
        (λ k. ap argv' (omega arith) ∙ f (suc k) ∙ ap argv (omega arith)) h.1,
  )

-- The arguments `ts`, behind the `ps`, are moved before them.
permuted :
    (argv : ℕ → Option Bytes) (to : ℕ) (ps ts rest : List Bytes)
    → HasArgs argv to (ps ++ (ts ++ rest))
    → HasArgs (opt_permute argv (to + length ps) to (length ts)) to (ts ++ (ps ++ rest))
permuted argv to ps ts rest h =
    let from = to + length ps in
    let n = length ts in
    let b = opt_permute argv from to n in
    let le : to ≤ from = omega arith in
    let behind = HasArgs-drop argv to ps (ts ++ rest) h in
    let front =
      Holds-elsewhere argv b from to ts
        (λ k p.
          opt_permute-front from to le n argv (to + k) (omega arith) (omega arith)
          ∙ ap argv (omega arith))
        (HasArgs-front argv from ts rest behind) in
    let middle =
      Holds-elsewhere argv b to (to + n) ps
        (λ k p.
          opt_permute-middle from to le n argv (to + n + k) (omega arith) (omega arith)
          ∙ ap argv (omega arith))
        (HasArgs-front argv to ps (ts ++ rest) h) in
    let above =
      HasArgs-elsewhere argv b (from + n) (to + n + length ps) rest
        (λ k.
          opt_permute-above from to le n argv (to + n + length ps + k) (omega arith)
          ∙ ap argv (omega arith))
        (HasArgs-drop argv from ts rest behind) in
    Holds-join b to ts (ps ++ rest) front (Holds-join b (to + n) ps rest middle above)

-- As ct_opt_next does it: nothing is moved if nothing was passed over.
abbrev pub moved : (ℕ → Option Bytes) → ℕ → ℕ → ℕ → ℕ → Option Bytes
moved argv from to count = if ltb to from then opt_permute argv from to count else argv

pub moved-HasArgs :
    (argv : ℕ → Option Bytes) (to : ℕ) (ps ts rest : List Bytes)
    → HasArgs argv to (ps ++ (ts ++ rest))
    → HasArgs (moved argv (to + length ps) to (length ts)) to (ts ++ (ps ++ rest))
moved-HasArgs argv to [] ts rest h =
    let none_passed : ltb to (to + 0) ≡ false = ground arith in rw none_passed h
moved-HasArgs argv to (p ∷ ps) ts rest h =
    let some_passed : ltb to (to + suc (length ps)) ≡ true = ground arith in
    rw some_passed (permuted argv to (p ∷ ps) ts rest h)

pub moved-below :
    (argv : ℕ → Option Bytes) (from to count j : ℕ)
    → to ≤ from
    → j < to
    → moved argv from to count j ≡ argv j
moved-below argv from to count j le h = elim (Bool-cases (ltb to from)) [
  | inl e ↦ rw e (opt_permute-below from to le count argv j h)
  | inr e ↦ rw e refl
]
