-- ===== src/Opt/Parser/Settle.antt =====
-- What a call of ct_opt_next has in common with the parser on lists, and the option that it finds.
use coter.Base.{
  ℕ, ◌+◌, ◌-◌, ◌≤◌, ◌≡◌, ◌⊎◌, inl, inr, refl, sym, subst, arith, Bool, Option, List, ◌++◌, Bytes,
  length, lt-total,
}
use coter.Opt.Options.{Opt}
use coter.Opt.Parser.{Answer, settle}
use coter.Opt.Parser.Segment.{HasArgs, moved, moved-HasArgs, moved-below}
use coter.Opt.Parser.Spec.{View, Result, pass}
use coter.Opt.Parser.Agree.{Agrees}

abbrev pub view_of : Opt → List Bytes → View
view_of self args = record {
  optarg = self.optarg;
  optopt = self.optopt;
  subind = self.subind;
  args = args;
}

-- What a call of ct_opt_next from `target` has in common with the list's.
pub record Refines (argv : ℕ → Option Bytes) (target : ℕ) (permute : Bool) (a : Answer) (r : Result)
    : Type 0 where
  pub code : a.0 ≡ r.0
  pub id : a.1 ≡ r.1
  pub permute_same : a.2.permute ≡ permute
  pub optind : a.2.optind ≡ target + length r.2
  pub args : HasArgs a.2.argv target (r.2 ++ r.3.args)
  pub below : (j : ℕ) → (target ≤ j) ⊎ (a.2.argv j ≡ argv j)
  pub optarg : a.2.optarg ≡ r.3.optarg
  pub optopt : a.2.optopt ≡ r.3.optopt
  pub subind : a.2.subind ≡ r.3.subind

pub kept :
    (argv : ℕ → Option Bytes) (i target count : ℕ)
    → target ≤ i
    → (j : ℕ) → (target ≤ j) ⊎ (moved argv i target count j ≡ argv j)
kept argv i target count h j = elim (lt-total j target) [
  | inl p ↦ inr (moved-below argv i target count j h p)
  | inr p ↦ inl p
]

-- an option at `i`, behind the arguments `ps` from `target` on
pub settle-Refines :
    (argv : ℕ → Option Bytes) (permute : Bool) (target : ℕ) (ps xs : List Bytes) (a : Answer)
    (r : Result)
    → HasArgs argv target (ps ++ xs)
    → Agrees argv permute (target + length ps) xs a r
    → Refines argv target permute (settle (target + length ps) target a) (pass ps r)
settle-Refines argv permute target ps xs a r h g =
    let i = target + length ps in
    let count : a.2.optind - i ≡ length r.2 = omega (arith, g.optind) in
    let after : HasArgs (moved argv i target (length r.2)) target (r.2 ++ (ps ++ r.3.args)) =
      moved-HasArgs argv target ps r.2 r.3.args
        (subst (λ l. HasArgs argv target (ps ++ l)) (sym g.args) h) in
    record {
      code = g.code;
      id = g.id;
      permute_same = g.permute_same;
      optind = rw count refl;
      args = rw (g.argv_same, count) after;
      below = λ j.
          subst (λ b. (target ≤ j) ⊎ (moved b i target (a.2.optind - i) j ≡ argv j))
            (sym g.argv_same) (kept argv i target (a.2.optind - i) (omega arith) j);
      optarg = g.optarg;
      optopt = g.optopt;
      subind = g.subind;
    }
