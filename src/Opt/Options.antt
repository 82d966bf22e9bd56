-- ===== src/Opt/Options.antt =====
-- opt/src/opt.c and opt/include/coter/opt/opt.h: the types, and the tests on one argument.
--
-- A string is the list of its characters before the terminator. A char is taken to be signed.
use coter.Base.{
  ℕ, zero, suc, ◌-◌, Bool, true, false, not, ◌&&◌, Option, none, some, [], ◌∷◌, ℤ, pos, negsuc,
  Bytes, ltb, ◌==◌, if◌then◌else◌,
}

-- `ct_opt_argtype_t`
pub data ArgType : Type 0 where
  nothing required optional : ArgType

-- `ct_opt_error_t`
pub data Error : Type 0 where
  no_error done invalid missing too_many : Error

-- `ct_opt_def_t`
pub record OptDef : Type 0 where
  pub longname : Option Bytes
  pub shortname : ℤ
  pub argtype : ArgType
  pub desc : Option Bytes
  pub metavar : Option Bytes

-- `ct_opt_t`
pub record Opt : Type 0 where
  pub optarg : Option Bytes
  pub argv : ℕ → Option Bytes
  pub permute : Bool
  pub optind : ℕ
  pub optopt : ℤ
  pub subind : ℕ

-- `s[i]`, up to the terminator
unfoldable pub char_at : Bytes → ℕ → ℕ
char_at [] i = 0
char_at (c ∷ s) zero = c
char_at (c ∷ s) (suc i) = char_at s i

-- the conversion of a char to an int
abbrev pub to_int_char : ℕ → ℤ
to_int_char c = if ltb c 128 then pos c else negsuc (255 - c)

unfoldable pub is_dashdash : Bytes → Bool
unfolding char_at
is_dashdash a = char_at a 0 == 45 && (char_at a 1 == 45 && char_at a 2 == 0)

unfoldable pub is_short : Bytes → Bool
unfolding char_at
is_short a = char_at a 0 == 45 && (not (char_at a 1 == 45) && not (char_at a 1 == 0))

unfoldable pub is_long : Bytes → Bool
unfolding char_at
is_long a = char_at a 0 == 45 && (char_at a 1 == 45 && not (char_at a 2 == 0))

abbrev pub is_zero : ℤ → Bool
is_zero (pos n) = n == 0
is_zero (negsuc _) = false

abbrev pub is_null : Option Bytes → Bool
is_null none = true
is_null (some _) = false

abbrev pub is_end : OptDef → Bool
is_end d = is_null d.longname && is_zero d.shortname

-- the loop of `opt_match` over the name and the option
unfoldable pub match_loop : Bytes → Bytes → Bool
match_loop [] [] = true
match_loop [] (c ∷ option) = c == 61
match_loop (x ∷ name) [] = false
match_loop (x ∷ name) (c ∷ option) =
    let rest = match_loop name option in if c == 61 then false else if c == x then rest else false

abbrev pub name_matches : Option Bytes → Bytes → Bool
name_matches none option = false
name_matches (some name) option = match_loop name option
