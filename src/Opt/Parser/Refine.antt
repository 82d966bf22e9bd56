-- ===== src/Opt/Parser/Refine.antt =====
-- ct_opt_next on the array does what the parser on lists does.
use coter.Base.{
  ℕ, zero, suc, ◌+◌, ◌≤◌, ◌≡◌, ◌⊎◌, inl, inr, refl, sym, ap, subst, arith, Bool, true, false, ◌||◌,
  none, List, [], ◌∷◌, ◌++◌, append_assoc, Bytes, length, length-append, if◌then◌else◌, Bool-cases,
}
use coter.Opt.Options.{done, OptDef, Opt, is_dashdash, is_short, is_long}
use coter.Opt.Parser.{dashdash, plain, option, scan, at_found, next}
use coter.Opt.Parser.Segment.{HasArgs, HasArgs-drop, moved-HasArgs}
use coter.Opt.Parser.Spec.{View, pass, step}
use coter.Opt.Parser.Agree.{Same, parse_short-Agrees, parse_long-Agrees}
use coter.Opt.Parser.Settle.{view_of, Refines, kept, settle-Refines}
use coter.Opt.Parser.Kinds.{
  scan_dashdash, scan_option, scan_passes, scan_end, step_dashdash, step_short, step_long,
  step_plain, pass_twice,
}

module _ (defs : List OptDef) (self : Opt) (v : View) (same : Same self v) where
  option-Refines :
      (ps xs : List Bytes) (x : Bytes)
      → HasArgs self.argv self.optind (ps ++ x ∷ xs)
      → is_dashdash x ≡ false
      → (is_short x || is_long x) ≡ true
      → Refines self.argv self.optind self.permute
          (at_found (option (self.optind + length ps)) defs self)
          (pass ps (step self.permute defs v (x ∷ xs)))
  option-Refines ps xs x h d o =
      let i = self.optind + length ps in
      let at = HasArgs-drop self.argv self.optind ps (x ∷ xs) h in
      elim (Bool-cases (is_short x)) [
        | inl s ↦
            rw (at.0, s, step_short self.permute defs v x xs d s)
              (settle-Refines self.argv self.permute self.optind ps (x ∷ xs) _ _ h
                (parse_short-Agrees defs x xs (record self { optind = i }) v same.2 at d s))
        | inr s ↦
            rw (at.0, s, step_long self.permute defs v x xs d s (ground arith))
              (settle-Refines self.argv self.permute self.optind ps (x ∷ xs) _ _ h
                (parse_long-Agrees defs x xs (record self { optind = i }) v same.2 at))
      ]

  end-Refines :
      (ps : List Bytes)
      → HasArgs self.argv self.optind (ps ++ [])
      → Refines self.argv self.optind self.permute
          (done, none, self)
          (pass ps (step self.permute defs v []))
  unfolding step
  end-Refines ps h = record {
    code = refl;
    id = refl;
    permute_same = refl;
    optind = omega arith;
    args = h;
    below = λ j. inr refl;
    optarg = same.0;
    optopt = same.1;
    subind = same.2;
  }

  dashdash-Refines :
      (ps xs : List Bytes) (x : Bytes)
      → HasArgs self.argv self.optind (ps ++ x ∷ xs)
      → Refines self.argv self.optind self.permute
          (at_found (dashdash (self.optind + length ps)) defs self)
          (pass ps (done, none, x ∷ [], record v { args = xs }))
  dashdash-Refines ps xs x h = record {
    code = refl;
    id = refl;
    permute_same = refl;
    optind = omega arith;
    args = moved-HasArgs self.argv self.optind ps (x ∷ []) xs h;
    below = kept self.argv (self.optind + length ps) self.optind 1 (omega arith);
    optarg = same.0;
    optopt = same.1;
    subind = same.2;
  }

  plain-Refines :
      (xs : List Bytes) (x : Bytes) (i : ℕ)
      → HasArgs self.argv self.optind (x ∷ xs)
      → i ≡ self.optind
      → Refines self.argv self.optind self.permute
          (at_found (plain i) defs self)
          (done, none, [], record v { args = x ∷ xs })
  plain-Refines xs x i h e = record {
    code = refl;
    id = refl;
    permute_same = refl;
    optind = omega arith;
    args = h;
    below = λ j. inr refl;
    optarg = same.0;
    optopt = same.1;
    subind = same.2;
  }

  -- an argument that is no option, passed over or not
  passed_over :
      (b : Bool) (ps xs : List Bytes) (x : Bytes) (fuel : ℕ)
      → b ≡ self.permute
      → HasArgs self.argv self.optind (ps ++ x ∷ xs)
      → (self.permute ≡ true) ⊎ (ps ≡ [])
      → (self.permute ≡ true
          → Refines self.argv self.optind self.permute
              (at_found
                (scan fuel self.permute self.argv (self.optind + length (ps ++ x ∷ [])))
                defs
                self)
              (pass (ps ++ x ∷ []) (step self.permute defs v xs)))
      → Refines self.argv self.optind self.permute
          (at_found
            (if b
              then scan fuel self.permute self.argv (suc (self.optind + length ps))
              else plain (self.optind + length ps))
            defs
            self)
          (pass ps (
            if b
            then pass (x ∷ []) (step self.permute defs v xs)
            else (done, none, [], record v { args = x ∷ xs })))
  passed_over true ps xs x fuel e h p rest =
      let R = Refines self.argv self.optind self.permute in
      let index : self.optind + length (ps ++ x ∷ []) ≡ suc (self.optind + length ps) =
        omega (arith, length-append ps (x ∷ [])) in
      subst
        (R (at_found (scan fuel self.permute self.argv (suc (self.optind + length ps))) defs self))
        (pass_twice ps x (step self.permute defs v xs))
        (subst
          (λ i.
            R (at_found (scan fuel self.permute self.argv i) defs self)
              (pass (ps ++ x ∷ []) (step self.permute defs v xs)))
          index (rest (sym e)))
  passed_over false ps xs x fuel e h (inl p) rest = absurd (cc)
  passed_over false ps xs x fuel e h (inr p) rest =
      let index : self.optind + length ps ≡ self.optind = omega (arith, ap length p) in
      subst
        (λ q.
          Refines self.argv self.optind self.permute
            (at_found (plain (self.optind + length ps)) defs self)
            (pass q (done, none, [], record v { args = x ∷ xs })))
        (sym p)
        (plain-Refines xs x (self.optind + length ps)
          (subst (λ q. HasArgs self.argv self.optind (q ++ x ∷ xs)) p h) index)

  scan-Refines :
      (args ps : List Bytes) (fuel : ℕ)
      → HasArgs self.argv self.optind (ps ++ args)
      → length args ≤ fuel
      → (self.permute ≡ true) ⊎ (ps ≡ [])
      → Refines self.argv self.optind self.permute
          (at_found (scan fuel self.permute self.argv (self.optind + length ps)) defs self)
          (pass ps (step self.permute defs v args))
  scan-Refines [] ps fuel h f p =
      rw
        (scan_end fuel self.permute self.argv (self.optind + length ps)
          (HasArgs-drop self.argv self.optind ps [] h))
        (end-Refines ps h)
  scan-Refines (x ∷ xs) ps zero h f p = absurd (omega arith)
  scan-Refines (x ∷ xs) ps (suc fuel) h f p =
      let i = self.optind + length ps in
      let at = HasArgs-drop self.argv self.optind ps (x ∷ xs) h in
      elim (Bool-cases (is_dashdash x)) [
        | inl d ↦
            rw
              (
                scan_dashdash fuel self.permute self.argv i x at.0 d,
                step_dashdash self.permute defs v x xs d,
              )
              (dashdash-Refines ps xs x h)
        | inr d ↦ elim (Bool-cases (is_short x || is_long x)) [
          | inl o ↦
              rw (scan_option fuel self.permute self.argv i x at.0 d o)
                (option-Refines ps xs x h d o)
          | inr o ↦
              let s : is_short x ≡ false = ground arith in
              let l : is_long x ≡ false = ground arith in
              let rest = λ (e : self.permute ≡ true).
                scan-Refines xs (ps ++ x ∷ []) fuel
                  (subst (λ l. HasArgs self.argv self.optind l) (sym (append_assoc ps (x ∷ []) xs))
                    h)
                  (omega arith) (inl e) in
              rw
                (
                  scan_passes fuel self.permute self.argv i x at.0 d s l,
                  step_plain self.permute defs v x xs d s l,
                )
                (passed_over self.permute ps xs x fuel refl h p rest)
        ]
      ]

-- ct_opt_next on an array of `argc` entries at most, whose entries from `optind` on are `args` and then a
-- null pointer, against the parser on lists. The answer, the id, the argument, the option and the
-- place in a cluster are the same. From `optind` on the array then has the arguments taken, and behind
-- them, in their order, all others; `optind` is behind the ones taken; what stands before is unchanged.
pub next-Refines :
    (argc : ℕ) (defs : List OptDef) (self : Opt) (args : List Bytes)
    → HasArgs self.argv self.optind args
    → length args ≤ argc
    → Refines self.argv self.optind self.permute
        (next argc defs self)
        (step self.permute defs (view_of self args) args)
unfolding next
next-Refines argc defs self args h f =
    let v = view_of self args in
    let start : self.optind + 0 ≡ self.optind = omega arith in
    subst
      (λ i.
        Refines self.argv self.optind self.permute
          (at_found (scan argc self.permute self.argv i) defs self) (step self.permute defs v args))
      start (scan-Refines defs self v (refl, refl, refl) args [] argc h f (inr refl))
