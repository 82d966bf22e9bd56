-- ===== src/Opt/Parser/Progress.antt =====
-- Calls of ct_opt_next come to an end.
use coter.Base.{
  ℕ, zero, suc, ◌+◌, ◌≤◌, ◌<◌, ◌≡◌, ◌⊎◌, inl, inr, refl, sym, ap, subst, ◌∙◌, arith, Bool, true,
  false, List, [], ◌∷◌, Bytes, length, if◌then◌else◌, Bool-cases,
}
use coter.Opt.Options.{
  Error, no_error, done, invalid, missing, too_many, OptDef, Opt, is_dashdash, is_short, is_long,
}
use coter.Opt.Parser.{next}
use coter.Opt.Parser.Segment.{HasArgs, HasArgs-drop}
use coter.Opt.Parser.Spec.{step}
use coter.Opt.Parser.Settle.{view_of}
use coter.Opt.Parser.Refine.{next-Refines}
use coter.Opt.Parser.Ready.{Ready, Ready-afresh, step-Advances, total}

abbrev is_done : Error → Bool
is_done done = true
is_done _ = false

-- A caller's loop, which calls ct_opt_next until it answers CT_OPT_ERROR_DONE, for so many calls.
unfoldable pub parse_all : ℕ → ℕ → List OptDef → Opt → Error × Opt
parse_all zero argc defs self = (no_error, self)
parse_all (suc calls) argc defs self =
    let r = next argc defs self in
    let rest = parse_all calls argc defs r.2 in if is_done r.0 then (r.0, r.2) else rest

is_done_only : (e : Error) → is_done e ≡ true → e ≡ done
is_done_only done h = refl
is_done_only no_error h = cc
is_done_only invalid h = cc
is_done_only missing h = cc
is_done_only too_many h = cc

not_done {ℓ} : {P : Type ℓ} (a r : Error) → a ≡ r → (r ≡ done) ⊎ P → is_done a ≡ false → P
not_done a r e (inl f) n = absurd (ground (arith, ap is_done (e ∙ f)))
not_done a r e (inr p) n = p

Ready-le-total : (sub : ℕ) (args : List Bytes) → Ready sub args → sub ≤ total args
Ready-le-total sub [] r = omega arith
Ready-le-total sub (x ∷ xs) r = elim (Bool-cases (is_dashdash x)) [
  | inl d ↦ omega (arith, let e : sub ≡ 0 = rw d at r in e)
  | inr d ↦ elim (Bool-cases (is_short x)) [
    | inl s ↦ omega (arith, let e : sub + 1 < length x = rw (d, s) at r in e)
    | inr s ↦ elim (Bool-cases (is_long x)) [
      | inl l ↦ omega (arith, let e : sub ≡ 0 = rw (d, s, l) at r in e)
      | inr l ↦ omega (arith, Ready-le-total sub xs (rw (d, s, l) at r))
    ]
  ]
]

parse_all_done :
    (calls argc : ℕ) (defs : List OptDef) (self : Opt) (args : List Bytes)
    → HasArgs self.argv self.optind args
    → length args ≤ argc
    → Ready self.subind args
    → total args < calls + self.subind
    → ((parse_all calls argc defs self).0 ≡ done)
unfolding parse_all
parse_all_done zero argc defs self args h f k m =
    absurd (omega (arith, Ready-le-total self.subind args k))
parse_all_done (suc calls) argc defs self args h f k m =
    let a = next argc defs self in
    let r = step self.permute defs (view_of self args) args in
    let ref = next-Refines argc defs self args h f in
    let (ready, ends, n) = step-Advances self.permute defs (view_of self args) args k in
    let step_less : (is_done a.0 ≡ false) → total r.3.args + self.subind < total args + r.3.subind =
      λ e. not_done a.0 r.0 ref.code ends e in
    elim (Bool-cases (is_done a.0)) [
      | inl e ↦ rw e (is_done_only a.0 e)
      | inr e ↦ rw e (
          parse_all_done calls argc defs a.2 r.3.args
            (subst (λ i. HasArgs a.2.argv i r.3.args) (sym ref.optind)
              (HasArgs-drop a.2.argv self.optind r.2 r.3.args ref.args))
            (omega arith) (subst (λ i. Ready i r.3.args) (sym ref.subind) ready)
            (omega (arith, ref.subind, m, step_less e)))
    ]

-- A caller's loop over ct_opt_next ends: from between two options, with the arguments `args` left, it has
-- the answer CT_OPT_ERROR_DONE after at most one call more than these have characters and terminators.
pub parse_all_ends :
    (calls argc : ℕ) (defs : List OptDef) (self : Opt) (args : List Bytes)
    → HasArgs self.argv self.optind args
    → length args ≤ argc
    → self.subind ≡ 0
    → total args < calls
    → (parse_all calls argc defs self).0 ≡ done
parse_all_ends calls argc defs self args h f z m =
    parse_all_done calls argc defs self args h f (Ready-afresh self.subind args z) (omega arith)
