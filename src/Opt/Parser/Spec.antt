-- ===== src/Opt/Parser/Spec.antt =====
-- The parser on the list of the arguments that are left, with nothing moved in an array.
use coter.Base.{
  ℕ, suc, ◌+◌, Bool, true, false, Option, none, some, List, [], ◌∷◌, ◌++◌, ℤ, pos, Bytes, drop,
  ◌==◌, if◌then◌else◌,
}
use coter.Opt.Options.{
  ArgType, nothing, required, optional, Error, no_error, done, invalid, missing, too_many, OptDef,
  char_at, to_int_char, is_dashdash, is_short, is_long, is_end, name_matches,
}
use coter.Opt.Parser.{type_of, is_printable, after_eq}

-- what a caller sees of the parser, with the arguments that are left
pub record View : Type 0 where
  pub optarg : Option Bytes
  pub optopt : ℤ
  pub subind : ℕ
  pub args : List Bytes

-- The code, the id, the arguments taken, and what is seen then.
abbrev pub Result : Type 0
Result = Error × Option ℤ × List Bytes × View

-- The option at `subind` in the cluster `s`, which is its last or not.
abbrev pub short_of : Option ArgType → Bool → ℤ → Bytes → List Bytes → View → Result
short_of none last c s xs v = (invalid, none, s ∷ [], record v { subind = 0; args = xs })
short_of (some nothing) true c s xs v =
    (no_error, some c, s ∷ [], record v { subind = 0; args = xs })
short_of (some nothing) false c s xs v =
    (no_error, some c, [], record v { subind = suc v.subind; args = s ∷ xs })
short_of (some required) false c s xs v = (
  no_error,
  some c,
  s ∷ [],
  record v { subind = 0; optarg = some (drop (v.subind + 2) s); args = xs },
)
short_of (some required) true c s [] v =
    (missing, some c, s ∷ [], record v { subind = 0; args = [] })
short_of (some required) true c s (y ∷ ys) v =
    (no_error, some c, s ∷ y ∷ [], record v { subind = 0; optarg = some y; args = ys })
short_of (some optional) false c s xs v = (
  no_error,
  some c,
  s ∷ [],
  record v { subind = 0; optarg = some (drop (v.subind + 2) s); args = xs },
)
short_of (some optional) true c s xs v =
    (no_error, some c, s ∷ [], record v { subind = 0; args = xs })

unfoldable pub short_step : List OptDef → Bytes → List Bytes → View → Result
short_step defs s xs v =
    let c = char_at s (v.subind + 1) in
    short_of (if is_printable c then type_of defs c none else none) (char_at s (v.subind + 2) == 0)
      (to_int_char c) s xs (record v { optopt = to_int_char c; optarg = none })

-- the first definition with this long name
unfoldable pub find_def : List OptDef → Bytes → Option OptDef
find_def [] option = none
find_def (d ∷ defs) option =
    let rest = find_def defs option in
    if is_end d then none else if name_matches d.longname option then some d else rest

abbrev pub long_of : ArgType → Option Bytes → ℤ → Bytes → List Bytes → View → Result
long_of nothing (some val) id s xs v = (too_many, some id, s ∷ [], record v { args = xs })
long_of required (some val) id s xs v =
    (no_error, some id, s ∷ [], record v { optarg = some val; args = xs })
long_of optional (some val) id s xs v =
    (no_error, some id, s ∷ [], record v { optarg = some val; args = xs })
long_of required none id s [] v = (missing, some id, s ∷ [], record v { args = [] })
long_of required none id s (y ∷ ys) v =
    (no_error, some id, s ∷ y ∷ [], record v { optarg = some y; args = ys })
long_of nothing none id s xs v = (no_error, some id, s ∷ [], record v { args = xs })
long_of optional none id s xs v = (no_error, some id, s ∷ [], record v { args = xs })

abbrev pub long_at : Option OptDef → Bytes → List Bytes → View → Result
long_at none s xs v = (invalid, none, s ∷ [], record v { args = xs })
long_at (some d) s xs v =
    long_of d.argtype (after_eq (drop 2 s)) d.shortname s xs (record v { optopt = d.shortname })

unfoldable pub long_step : List OptDef → Bytes → List Bytes → View → Result
long_step defs s xs v =
    long_at (find_def defs (drop 2 s)) s xs (record v { optopt = pos 0; optarg = none })

-- passes these arguments over: they stay before the ones left
abbrev pub pass : List Bytes → Result → Result
pass ps (code, id, taken, v) = (code, id, taken, record v { args = ps ++ v.args })

unfoldable pub step : Bool → List OptDef → View → List Bytes → Result
step permute defs v [] = (done, none, [], record v { args = [] })
step permute defs v (x ∷ xs) =
    let rest = pass (x ∷ []) (step permute defs v xs) in
    if is_dashdash x
    then (done, none, x ∷ [], record v { args = xs })
    else if is_short x
    then short_step defs x xs v
    else if is_long x
    then long_step defs x xs v
    else if permute
    then rest
    else (done, none, [], record v { args = x ∷ xs })
