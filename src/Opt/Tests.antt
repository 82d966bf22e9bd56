-- ===== src/Opt/Tests.antt =====
-- Tests of the option parser and of the help.
use coter.Base.{ℕ, zero, suc, ◌≡◌, refl, arith, true, Option, none, some, List, [], ◌∷◌, pos, Bytes}
use coter.Opt.Options.{
  nothing, required, OptDef, Opt, no_error, done, is_dashdash, is_short, is_long, char_at,
}
use coter.Opt.Parser.{next, parse_short, parse_long, scan, opt_permute, type_of}
use coter.Opt.Parser.Segment.{HasArgs}
use coter.Opt.Parser.Spec.{step}
use coter.Opt.Parser.Settle.{Refines, view_of}
use coter.Opt.Parser.Refine.{next-Refines}
use coter.Opt.Parser.Progress.{parse_all, parse_all_ends}
use coter.Opt.Help.{help_desc, word_of}
use coter.Opt.Help.Lines.{Described, help_desc-Described}

abbrev argv_of : List Bytes → ℕ → Option Bytes
argv_of [] i = none
argv_of (x ∷ xs) zero = some x
argv_of (x ∷ xs) (suc i) = argv_of xs i

-- x -vo out
abbrev command : List Bytes
command = (120 ∷ []) ∷ (45 ∷ 118 ∷ 111 ∷ []) ∷ (111 ∷ 117 ∷ 116 ∷ []) ∷ []

abbrev start : Opt
start = record {
  optarg = none;
  argv = argv_of ((112 ∷ []) ∷ command);
  permute = true;
  optind = 1;
  optopt = pos 0;
  subind = 0;
}

-- -v, --verbose
abbrev verbose : OptDef
verbose = record {
  longname = some (118 ∷ 101 ∷ 114 ∷ 98 ∷ 111 ∷ 115 ∷ 101 ∷ []);
  shortname = pos 118;
  argtype = nothing;
  desc = some (109 ∷ 111 ∷ 114 ∷ 101 ∷ 32 ∷ 116 ∷ 101 ∷ 120 ∷ 116 ∷ []);
  metavar = none;
}

-- -o ARG
abbrev output : OptDef
output = record {
  longname = none;
  shortname = pos 111;
  argtype = required;
  desc = none;
  metavar = none;
}

abbrev two_options : List OptDef
two_options = verbose ∷ output ∷ []

start-HasArgs : HasArgs start.argv start.optind command
start-HasArgs = (refl, (refl, (refl, refl)))

next-Refines_example :
    Refines start.argv 1 true
      (next 4 two_options start)
      (step true two_options (view_of start command) command)
next-Refines_example = next-Refines 4 two_options start command start-HasArgs (omega arith)

parse_all_ends_example : (parse_all 12 4 two_options start).0 ≡ done
parse_all_ends_example =
    parse_all_ends 12 4 two_options start command start-HasArgs (omega arith) refl (omega arith)

abbrev more_text : Bytes
more_text = 109 ∷ 111 ∷ 114 ∷ 101 ∷ 32 ∷ 116 ∷ 101 ∷ 120 ∷ 116 ∷ []

help_desc-Described_example : Described 40 more_text 20 (help_desc more_text 20 40)
unfolding word_of
help_desc-Described_example = help_desc-Described more_text 20 40 40 (omega arith) (omega arith)

-- the first option is found, and the text in the cluster stays
verbose_first : (next 4 two_options start).0 ≡ no_error
unfolding next scan opt_permute parse_short parse_long is_short is_long is_dashdash char_at type_of
verbose_first = refl
