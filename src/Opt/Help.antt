-- ===== src/Opt/Help.antt =====
-- opt/src/opt.c: the texts of the usage line and of the help.
--
-- What a call prints is the list of its characters. The numbers of a resolved configuration are above 0,
-- and columns are counted from 0.
pub mod Width
pub mod Lines
pub mod Rounds
pub mod Words
use coter.Base.{
  ℕ, zero, suc, ◌+◌, ◌-◌, ◌/◌, Bool, true, false, not, ◌&&◌, ◌||◌, Option, none, some, List, [],
  ◌∷◌, ◌++◌, ℤ, pos, negsuc, Bytes, length, drop, replicate, leb, ltb, ◌==◌, if◌then◌else◌,
}
use coter.Opt.Options.{ArgType, nothing, required, optional, OptDef, is_end, is_null}
use coter.Opt.Parser.{is_printable, text}

-- `ct_opt_help_config_t`, resolved
pub record HelpConfig : Type 0 where
  pub width : ℕ
  pub min_desc : ℕ
  pub max_left : ℕ

abbrev pub positive_or : ℤ → ℕ → ℕ
positive_or (pos zero) d = d
positive_or (pos (suc n)) d = suc n
positive_or (negsuc _) d = d

-- `opt_resolve_config`: the three numbers of the caller, if there is a configuration.
unfoldable pub resolve_config : Option (ℤ × ℤ × ℤ) → HelpConfig
resolve_config none = record { width = 80; min_desc = 26; max_left = 36 }
resolve_config (some (width, min_desc, max_left)) = record {
  width = positive_or width 80;
  min_desc = positive_or min_desc 26;
  max_left = positive_or max_left 36;
}

abbrev pub printable_name : ℤ → Bool
printable_name (pos n) = is_printable n
printable_name (negsuc _) = false

-- the character of a short name
abbrev pub name_char : ℤ → ℕ
name_char (pos n) = n
name_char (negsuc _) = 0

abbrev pub has_short : OptDef → Bool
has_short d = printable_name d.shortname

abbrev pub has_text : Option Bytes → Bool
has_text none = false
has_text (some []) = false
has_text (some (_ ∷ _)) = true

abbrev pub has_long : OptDef → Bool
has_long d = has_text d.longname

-- "ARG" where there is no other placeholder
abbrev pub metavar_of : Option Bytes → Bytes
metavar_of none = 65 ∷ 82 ∷ 71 ∷ []
metavar_of (some m) = m

abbrev pub arg_width : ArgType → Bytes → ℕ
arg_width nothing m = 0
arg_width required m = 1 + length m
arg_width optional m = 3 + length m

unfoldable pub help_width : OptDef → ℕ
help_width d =
    (if has_long d then 8 + length (text d.longname) else if has_short d then 4 else 0)
    + arg_width d.argtype (metavar_of d.metavar)

-- "=ARG" and "[=ARG]"
abbrev pub arg_text : ArgType → Bytes → Bytes
arg_text nothing m = []
arg_text required m = 61 ∷ m
arg_text optional m = 91 ∷ 61 ∷ (m ++ 93 ∷ [])

-- "  -c, --name", "  -c" and "      --name"
abbrev pub names_text : OptDef → Bytes
names_text d =
    if has_short d
    then (if has_long d
        then 32 ∷ 32 ∷ 45 ∷ name_char d.shortname ∷ 44 ∷ 32 ∷ 45 ∷ 45 ∷ text d.longname
        else 32 ∷ 32 ∷ 45 ∷ name_char d.shortname ∷ [])
    else 32 ∷ 32 ∷ 32 ∷ 32 ∷ 32 ∷ 32 ∷ 45 ∷ 45 ∷ (if has_long d then text d.longname else [])

abbrev pub spaces : ℕ → Bytes
spaces n = replicate n 32

-- `opt_help_option`: the text, filled up with spaces to the column.
unfoldable pub help_option : OptDef → ℕ → Bytes
help_option d col =
    let printed = names_text d ++ arg_text d.argtype (metavar_of d.metavar) in
    printed ++ spaces (col - length printed)

-- the characters up to a space, a line break or the end
unfoldable pub word_of : Bytes → Bytes
word_of [] = []
word_of (c ∷ s) = let rest = word_of s in if c == 32 || c == 10 then [] else c ∷ rest

unfoldable pub skip_spaces : Bytes → Bytes
skip_spaces [] = []
skip_spaces (c ∷ s) = let rest = skip_spaces s in if c == 32 then rest else c ∷ s

abbrev pub before_all : Bytes → Option Bytes → Option Bytes
before_all xs none = none
before_all xs (some out) = some (xs ++ out)

abbrev pub new_line : ℕ → Bytes
new_line col = 10 ∷ spaces col

-- What goes before a word, and the place in the line after it.
abbrev pub breaks : ℕ → ℕ → ℕ → Bool
breaks avail at wlen = ltb 0 at && ltb avail (at + 1 + wlen)

abbrev pub gap : ℕ → ℕ → ℕ → ℕ → Bytes
gap col avail at wlen =
    if breaks avail at wlen then new_line col else if ltb 0 at then 32 ∷ [] else []

abbrev pub place : ℕ → ℕ → ℕ → ℕ
place avail at wlen = (if breaks avail at wlen then 0 else if ltb 0 at then at + 1 else at) + wlen

-- The loop of `opt_help_desc`, with `none` where the fuel ends before the text.
unfoldable pub desc_loop : ℕ → Bytes → ℕ → ℕ → ℕ → Option Bytes
desc_loop zero desc at col avail = none
desc_loop (suc fuel) [] at col avail = some (10 ∷ [])
desc_loop (suc fuel) (c ∷ desc) at col avail =
    let word = word_of (c ∷ desc) in
    let wlen = length word in
    let broken = before_all (new_line col) (desc_loop fuel desc 0 col avail) in
    let rest =
      desc_loop fuel (skip_spaces (drop wlen (c ∷ desc))) (place avail at wlen) col avail in
    if c == 10 then broken else before_all (gap col avail at wlen ++ word) rest

abbrev pub avail_of : ℕ → ℕ → ℕ
avail_of col width = if ltb (width - col) 10 then 10 else width - col

unfoldable pub help_desc : Bytes → ℕ → ℕ → Option Bytes
unfolding desc_loop word_of skip_spaces
help_desc desc col width = desc_loop (length desc + 1) desc 0 col (avail_of col width)

-- The definitions that the loops go over: up to the end mark and to `count`, which is -1 for all.
unfoldable pub shown : ℤ → List OptDef → List OptDef
shown count [] = []
shown (pos zero) (d ∷ defs) = []
shown (pos (suc n)) (d ∷ defs) = if is_end d then [] else d ∷ shown (pos n) defs
shown (negsuc n) (d ∷ defs) = if is_end d then [] else d ∷ shown (negsuc n) defs

abbrev pub usable : OptDef → Bool
usable d = not (is_null d.longname) || has_short d

unfoldable pub any_usable : List OptDef → Bool
any_usable [] = false
any_usable (d ∷ defs) = usable d || any_usable defs

-- `ct_opt_usage`
unfoldable pub usage : Bytes → List OptDef → ℤ → Option Bytes → Bytes
unfolding shown any_usable
usage progname defs count pos_args =
    85
    ∷ 115
    ∷ 97
    ∷ 103
    ∷ 101
    ∷ 58
    ∷ 32
    ∷ (progname
        ++ ((if any_usable (shown count defs)
              then 32 ∷ 91 ∷ 111 ∷ 112 ∷ 116 ∷ 105 ∷ 111 ∷ 110 ∷ 115 ∷ 93 ∷ []
              else [])
            ++ ((if has_text pos_args then 32 ∷ text pos_args else []) ++ 10 ∷ [])))

abbrev pub desc_max_of : HelpConfig → ℕ
desc_max_of c = if leb c.width c.min_desc then c.width / 2 else c.width - c.min_desc

-- The first loop of ct_opt_help: the column of the texts, and the widest option.
unfoldable pub columns : HelpConfig → ℕ → List OptDef → ℕ → ℕ → ℕ × ℕ
columns c desc_max [] desc_col actual_max = (desc_col, actual_max)
columns c desc_max (d ∷ defs) desc_col actual_max =
    let lw = help_width d + 2 in
    let fits = leb lw c.max_left && (leb lw desc_max && ltb desc_col lw) in
    let counts = has_text d.desc in
    columns c desc_max defs (if counts && fits then lw else desc_col)
      (if counts && ltb actual_max lw then lw else actual_max)

unfoldable pub desc_column : HelpConfig → List OptDef → ℕ
unfolding columns
desc_column c defs =
    let desc_max = desc_max_of c in
    let (desc_col, actual_max) = columns c desc_max defs 0 0 in
    let chosen =
      if desc_col == 0 && ltb 0 actual_max
      then (if ltb actual_max desc_max then actual_max else desc_max)
      else desc_col in
    let limited = if ltb desc_max chosen then desc_max else chosen in
    if ltb limited 2 then 2 else limited

-- the option of one entry, on a line of its own if it is too wide
unfoldable pub help_left : OptDef → ℕ → Bytes
unfolding help_width help_option
help_left d desc_col =
    if ltb desc_col (help_width d + 2)
    then help_option d 0 ++ new_line desc_col
    else help_option d desc_col

abbrev pub join_all : Option Bytes → Option Bytes → Option Bytes
join_all none rest = none
join_all (some out) rest = before_all out rest

-- The second loop of ct_opt_help.
unfoldable pub help_entries : HelpConfig → ℕ → List OptDef → Option Bytes
unfolding help_left help_desc
help_entries c desc_col [] = some []
help_entries c desc_col (d ∷ defs) =
    let rest = help_entries c desc_col defs in
    if has_text d.desc
    then join_all (before_all (help_left d desc_col) (help_desc (text d.desc) desc_col c.width))
        rest
    else rest

-- `ct_opt_help`
unfoldable pub help : List OptDef → ℤ → Option (ℤ × ℤ × ℤ) → Option Bytes
unfolding resolve_config shown desc_column help_entries
help defs count cfg =
    let c = resolve_config cfg in
    let entries = shown count defs in help_entries c (desc_column c entries) entries
