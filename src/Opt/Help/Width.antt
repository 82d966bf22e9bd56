-- ===== src/Opt/Help/Width.antt =====
-- The columns that an option takes in the help.
use coter.Base.{
  ℕ, ◌+◌, ◌-◌, ◌≡◌, refl, arith, true, ◌||◌, [], ◌∷◌, ◌++◌, Bytes, length, length-append,
  length-replicate,
}
use coter.Opt.Options.{ArgType, nothing, required, optional, OptDef}
use coter.Opt.Help.{
  arg_width, arg_text, names_text, metavar_of, has_short, has_long, help_width, help_option, spaces,
}

length-arg_text : (t : ArgType) (m : Bytes) → length (arg_text t m) ≡ arg_width t m
length-arg_text nothing m = refl
length-arg_text required m = omega arith
length-arg_text optional m = omega (arith, length-append m (93 ∷ []))

-- An option with a name takes as many columns as `opt_help_width` says, or the columns up to `col` if
-- these are more.
pub help_option_width :
    (d : OptDef) (col : ℕ)
    → (has_short d || has_long d) ≡ true
    → length (help_option d col) ≡ help_width d + (col - help_width d)
unfolding help_option help_width
help_option_width d col h =
    let names = names_text d in
    let args = arg_text d.argtype (metavar_of d.metavar) in
    ground (
      arith,
      length-append (names ++ args) (spaces (col - length (names ++ args))),
      length-append names args,
      length-arg_text d.argtype (metavar_of d.metavar),
      length-replicate {A = ℕ} (col - length (names ++ args)) 32,
    )
