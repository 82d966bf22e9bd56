-- ===== src/Opt/Parser.antt =====
-- opt/src/opt.c and opt/include/coter/opt/opt.h: the options of a command line, one at a call, with
-- the other arguments moved behind them.
--
-- `argv` is a function from the index, `none` where the pointer is null.
pub mod Permute
pub mod Spec
pub mod Segment
pub mod Agree
pub mod Settle
pub mod Kinds
pub mod Refine
pub mod Ready
pub mod Progress
use coter.Base.{
  ℕ, zero, suc, ◌+◌, ◌-◌, Bool, true, false, not, ◌&&◌, ◌||◌, Option, none, some, List, [], ◌∷◌, ℤ,
  pos, negsuc, Bytes, drop, leb, ltb, ◌==◌, if◌then◌else◌,
}
use coter.Opt.Options.{
  ArgType, Error, Opt, OptDef, char_at, done, invalid, is_dashdash, is_end, is_long, is_null,
  is_short, is_zero, match_loop, missing, name_matches, no_error, nothing, optional, required,
  to_int_char, too_many,
}

abbrev pub set_arg : (ℕ → Option Bytes) → ℕ → Option Bytes → ℕ → Option Bytes
set_arg argv j v i = if i == j then v else argv i

-- The inner loop of `opt_permute`, for so many rounds: the entries from `low` on go up by one.
unfoldable pub shift : ℕ → (ℕ → Option Bytes) → ℕ → ℕ → Option Bytes
shift zero argv low = argv
shift (suc rounds) argv low =
    shift rounds (set_arg argv (low + suc rounds) (argv (low + rounds))) low

unfoldable pub permute_loop : ℕ → (ℕ → Option Bytes) → ℕ → ℕ → ℕ → ℕ → Option Bytes
permute_loop zero argv from to k = argv
permute_loop (suc rounds) argv from to k =
    let moved = shift (from - to) argv (to + k) in
    permute_loop rounds (set_arg moved (to + k) (argv (from + k))) from to (suc k)

unfoldable pub opt_permute : (ℕ → Option Bytes) → ℕ → ℕ → ℕ → ℕ → Option Bytes
unfolding permute_loop
opt_permute argv from to count = permute_loop count argv from to 0

abbrev pub is_named : ℤ → ℕ → Bool
is_named (pos n) c = n == c
is_named (negsuc _) c = false

-- The definitions before the end mark; the last one with this short name counts.
unfoldable pub type_of : List OptDef → ℕ → Option ArgType → Option ArgType
type_of [] c found = found
type_of (d ∷ defs) c found =
    let rest = type_of defs c (if is_named d.shortname c then some d.argtype else found) in
    if is_end d then found else rest

abbrev pub is_printable : ℕ → Bool
is_printable c = leb 33 c && ltb c 127

-- The code, what is written at `out_id`, and the parser after the call.
abbrev pub Answer : Type 0
Answer = Error × Option ℤ × Opt

abbrev pub after_short : Bytes → Option Bytes → Option ArgType → ℕ → Opt → Answer
after_short s following none c self =
    (invalid, none, record self { subind = 0; optind = suc self.optind })
after_short s following (some nothing) c self = (
  no_error,
  some (to_int_char c),
  (if char_at s (self.subind + 2) == 0
      then record self { subind = 0; optind = suc self.optind }
      else record self { subind = suc self.subind }),
)
after_short s none (some required) c self =
    if char_at s (self.subind + 2) == 0
    then (missing, some (to_int_char c), record self { subind = 0; optind = suc self.optind })
    else (
      no_error,
      some (to_int_char c),
      record self {
        subind = 0;
        optind = suc self.optind;
        optarg = some (drop (self.subind + 2) s);
      },
    )
after_short s (some following) (some required) c self =
    if char_at s (self.subind + 2) == 0
    then (
      no_error,
      some (to_int_char c),
      record self { subind = 0; optind = suc (suc self.optind); optarg = some following },
    )
    else (
      no_error,
      some (to_int_char c),
      record self {
        subind = 0;
        optind = suc self.optind;
        optarg = some (drop (self.subind + 2) s);
      },
    )
after_short s following (some optional) c self = (
  no_error,
  some (to_int_char c),
  record self {
    subind = 0;
    optind = suc self.optind;
    optarg = if char_at s (self.subind + 2) == 0 then none else some (drop (self.subind + 2) s);
  },
)

abbrev pub parse_short_of : Option Bytes → List OptDef → Opt → Answer
parse_short_of none defs self = (done, none, record self { optopt = pos 0; optarg = none })
parse_short_of (some s) defs self =
    let c = char_at s (self.subind + 1) in
    let type = if is_printable c then type_of defs c none else none in
    if is_dashdash s
    then (done, none, record self { optopt = pos 0; optarg = none; optind = suc self.optind })
    else if not (is_short s)
    then (done, none, record self { optopt = pos 0; optarg = none })
    else after_short s (self.argv (suc self.optind)) type c
        (record self { optopt = to_int_char c; optarg = none })

unfoldable pub parse_short : List OptDef → Opt → Answer
unfolding char_at type_of is_dashdash is_short
parse_short defs self = parse_short_of (self.argv self.optind) defs self

-- `strchr(option, '=') + 1`
unfoldable pub after_eq : Bytes → Option Bytes
after_eq [] = none
after_eq (c ∷ option) = if c == 61 then some option else after_eq option

abbrev pub after_long : ArgType → Option Bytes → Option Bytes → ℤ → Opt → Answer
after_long nothing (some val) following id self = (too_many, some id, self)
after_long _ (some val) following id self = (no_error, some id, record self { optarg = some val })
after_long required none none id self = (missing, some id, self)
after_long required none (some following) id self =
    (no_error, some id, record self { optarg = some following; optind = suc self.optind })
after_long _ none following id self = (no_error, some id, self)

-- The loop over the definitions: the first with this long name counts.
unfoldable pub find_long : List OptDef → Bytes → Opt → Answer
find_long [] option self = (invalid, none, self)
find_long (d ∷ defs) option self =
    let rest = find_long defs option self in
    if is_end d
    then (invalid, none, self)
    else if name_matches d.longname option
    then after_long d.argtype (after_eq option) (self.argv self.optind) d.shortname
        (record self { optopt = d.shortname })
    else rest

abbrev pub text : Option Bytes → Bytes
text none = []
text (some s) = s

unfoldable pub parse_long : List OptDef → Opt → Answer
unfolding find_long after_eq match_loop
parse_long defs self =
    find_long defs (drop 2 (text (self.argv self.optind)))
      (record self { optopt = pos 0; optarg = none; optind = suc self.optind })

unfoldable pub init : (ℕ → Option Bytes) → Opt
init argv = record {
  optarg = none;
  argv = argv;
  permute = true;
  optind = if is_null (argv 0) then 0 else 1;
  optopt = pos 0;
  subind = 0;
}

abbrev pub take_arg : Option Bytes → Opt → Option Bytes × Opt
take_arg none self = (none, self)
take_arg (some a) self = (some a, record self { optind = suc self.optind })

-- `ct_opt_arg`
unfoldable pub arg : Opt → Option Bytes × Opt
arg self = if self.subind == 0 then take_arg (self.argv self.optind) self else (none, self)

-- `ct_opt_narg`, for an array of at most so many entries
unfoldable pub narg_from : ℕ → (ℕ → Option Bytes) → ℕ → ℕ
narg_from zero argv i = 0
narg_from (suc fuel) argv i =
    let rest = narg_from fuel argv (suc i) in if is_null (argv i) then 0 else suc rest

-- `ct_opt_narg`
unfoldable pub narg : ℕ → Opt → ℕ
unfolding narg_from
narg argc self = narg_from argc self.argv self.optind

-- What the loop of ct_opt_next finds: the end, the argument `--`, a first argument that is no option
-- and may not be passed over, or an option.
pub data Found : Type 0 where
  ended : Found
  dashdash plain option : ℕ → Found

abbrev pub look : Bool → Option Bytes → ℕ → Found → Found
look permute none i rest = ended
look permute (some a) i rest =
    if is_dashdash a
    then dashdash i
    else if is_short a || is_long a
    then option i
    else if permute
    then rest
    else plain i

unfoldable pub scan : ℕ → Bool → (ℕ → Option Bytes) → ℕ → Found
unfolding is_dashdash is_short is_long
scan zero permute argv i = ended
scan (suc fuel) permute argv i =
    let rest = scan fuel permute argv (suc i) in look permute (argv i) i rest

-- The arguments passed over go behind those that the option took.
abbrev pub settle : ℕ → ℕ → Answer → Answer
settle i target (code, id, self) = (
  code,
  id,
  record self {
    argv = if ltb target i then opt_permute self.argv i target (self.optind - i) else self.argv;
    optind = target + (self.optind - i);
  },
)

abbrev pub at_found : Found → List OptDef → Opt → Answer
at_found ended defs self = (done, none, self)
at_found (dashdash i) defs self = (
  done,
  none,
  record self {
    argv = if ltb self.optind i then opt_permute self.argv i self.optind 1 else self.argv;
    optind = self.optind + 1;
  },
)
at_found (plain i) defs self = (done, none, record self { optind = i })
at_found (option i) defs self =
    let at = record self { optind = i } in
    settle i self.optind
      (if is_short (text (self.argv i)) then parse_short defs at else parse_long defs at)

-- `ct_opt_next`, for an array of at most so many entries
unfoldable pub next : ℕ → List OptDef → Opt → Answer
unfolding scan parse_short parse_long opt_permute is_short
next argc defs self = at_found (scan argc self.permute self.argv self.optind) defs self
