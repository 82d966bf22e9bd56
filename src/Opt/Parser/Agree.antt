-- ===== src/Opt/Parser/Agree.antt =====
-- The parsers of one option, of the array and of the list, give the same answer.
use coter.Base.{
  ℕ, suc, ◌+◌, ◌≡◌, inl, inr, refl, arith, Bool, true, false, Option, none, some, List, [], ◌∷◌,
  ◌++◌, ℤ, pos, Bytes, drop, length, ◌==◌, if◌then◌else◌, Bool-cases,
}
use coter.Opt.Options.{
  ArgType, nothing, required, optional, OptDef, Opt, char_at, to_int_char, is_dashdash, is_short,
  is_end, name_matches,
}
use coter.Opt.Parser.{
  Answer, type_of, is_printable, after_eq, after_short, parse_short, after_long, find_long,
  parse_long,
}
use coter.Opt.Parser.Segment.{HasArgs}
use coter.Opt.Parser.Spec.{
  View, Result, short_of, short_step, find_def, long_of, long_at, long_step,
}

-- The parser of the array and that of the list, at an option: `s` and the arguments behind it.
pub record Agrees (argv : ℕ → Option Bytes) (permute : Bool) (start : ℕ) (xs : List Bytes)
    (a : Answer) (r : Result) : Type 0 where
  pub code : a.0 ≡ r.0
  pub id : a.1 ≡ r.1
  pub argv_same : a.2.argv ≡ argv
  pub permute_same : a.2.permute ≡ permute
  pub optind : a.2.optind ≡ start + length r.2
  pub args : r.2 ++ r.3.args ≡ xs
  pub optarg : a.2.optarg ≡ r.3.optarg
  pub optopt : a.2.optopt ≡ r.3.optopt
  pub subind : a.2.subind ≡ r.3.subind

-- what the array parser has in common with the view
abbrev pub Same : Opt → View → Type 0
Same self v = (self.optarg ≡ v.optarg) × (self.optopt ≡ v.optopt) × (self.subind ≡ v.subind)

after_short-Agrees :
    (type : Option ArgType) (s : Bytes) (xs : List Bytes) (c : ℕ) (self : Opt) (v : View)
    → Same self v
    → HasArgs self.argv (suc self.optind) xs
    → self.optarg ≡ none
    → Agrees self.argv self.permute self.optind
        (s ∷ xs)
        (after_short s (self.argv (suc self.optind)) type c self)
        (short_of type (char_at s (v.subind + 2) == 0) (to_int_char c) s xs v)
after_short-Agrees none s xs c self v e h o = ground arith
after_short-Agrees (some nothing) s xs c self v e h o = ground arith
after_short-Agrees (some required) s [] c self v e h o = ground arith
after_short-Agrees (some required) s (y ∷ ys) c self v e h o = ground arith
after_short-Agrees (some optional) s xs c self v e h o = ground arith

-- Whatever a parser did before, its answer to a short option agrees with the list's.
pub parse_short-Agrees :
    (defs : List OptDef) (s : Bytes) (xs : List Bytes) (self : Opt) (v : View)
    → self.subind ≡ v.subind
    → HasArgs self.argv self.optind (s ∷ xs)
    → is_dashdash s ≡ false
    → is_short s ≡ true
    → Agrees self.argv self.permute self.optind
        (s ∷ xs)
        (parse_short defs self)
        (short_step defs s xs v)
unfolding parse_short short_step
parse_short-Agrees defs s xs self v e h p q =
    let c = char_at s (self.subind + 1) in
    let at = record self { optopt = to_int_char c; optarg = none } in
    let w = record v { optopt = to_int_char c; optarg = none } in
    rw (h.0, p, q, ← e)
      (after_short-Agrees (if is_printable c then type_of defs c none else none) s xs c at
        (record w { subind = self.subind }) (refl, refl, refl) h.1 refl)

after_long-Agrees :
    (type : ArgType) (val : Option Bytes) (id : ℤ) (s : Bytes) (xs : List Bytes) (i : ℕ)
    (self : Opt) (v : View)
    → Same self v
    → self.optind ≡ suc i
    → HasArgs self.argv self.optind xs
    → self.optarg ≡ none
    → Agrees self.argv self.permute i
        (s ∷ xs)
        (after_long type val (self.argv self.optind) id self)
        (long_of type val id s xs v)
after_long-Agrees nothing (some x) id s xs i self v e q h o = ground arith
after_long-Agrees required (some x) id s xs i self v e q h o = ground arith
after_long-Agrees optional (some x) id s xs i self v e q h o = ground arith
after_long-Agrees nothing none id s xs i self v e q h o = ground arith
after_long-Agrees required none id s [] i self v e q h o = ground arith
after_long-Agrees required none id s (y ∷ ys) i self v e q h o = ground arith
after_long-Agrees optional none id s xs i self v e q h o = ground arith

find_long-Agrees :
    (defs : List OptDef) (s : Bytes) (xs : List Bytes) (i : ℕ) (self : Opt) (v : View)
    → Same self v
    → self.optind ≡ suc i
    → HasArgs self.argv self.optind xs
    → self.optarg ≡ none
    → Agrees self.argv self.permute i
        (s ∷ xs)
        (find_long defs (drop 2 s) self)
        (long_at (find_def defs (drop 2 s)) s xs v)
unfolding find_long find_def
find_long-Agrees [] s xs i self v e q h o = ground arith
find_long-Agrees (d ∷ defs) s xs i self v e q h o = elim (Bool-cases (is_end d)) [
  | inl ends ↦ rw ends (ground arith)
  | inr goes ↦ elim (Bool-cases (name_matches d.longname (drop 2 s))) [
    | inl hit ↦
        rw (goes, hit)
          (after_long-Agrees d.argtype (after_eq (drop 2 s)) d.shortname s xs i
            (record self { optopt = d.shortname }) (record v { optopt = d.shortname })
            (e.0, refl, e.2) q h o)
    | inr miss ↦ rw (goes, miss) (find_long-Agrees defs s xs i self v e q h o)
  ]
]

pub parse_long-Agrees :
    (defs : List OptDef) (s : Bytes) (xs : List Bytes) (self : Opt) (v : View)
    → self.subind ≡ v.subind
    → HasArgs self.argv self.optind (s ∷ xs)
    → Agrees self.argv self.permute self.optind
        (s ∷ xs)
        (parse_long defs self)
        (long_step defs s xs v)
unfolding parse_long long_step
parse_long-Agrees defs s xs self v e h = rw h.0 (
    find_long-Agrees defs s xs self.optind
      (record self { optopt = pos 0; optarg = none; optind = suc self.optind })
      (record v { optopt = pos 0; optarg = none }) (refl, refl, e) refl h.1 refl)
