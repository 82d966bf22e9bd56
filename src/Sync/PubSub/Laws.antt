-- ===== src/Sync/PubSub/Laws.antt =====
-- Who gets an event.
use coter.Base.{
  ℕ, zero, suc, ◌<◌, ◌≡◌, refl, sym, ap, ap₂, ◌∙◌, arith, Bool, true, false, none, some, List, [],
  ◌∷◌, ◌++◌, append_assoc, append-nil, ℤ, pos, minus_one, get_elem?, length, ◌==◌, ◌||◌,
  if◌then◌else◌, Bool-cases, inl, inr,
}
use coter.Sync.PubSub.{
  Sub, Delivery, matches, remove_at, remove_loop, subscribe, unsubscribe, publish,
}

-- The subscribers that a removal leaves, and whether there is one to remove.
unfoldable pub others : ℕ → ℕ → List Sub → List Sub
others kind cb [] = []
others kind cb (s ∷ subs) =
    if matches kind cb s then others kind cb subs else s ∷ others kind cb subs

unfoldable pub has : ℕ → ℕ → List Sub → Bool
has kind cb [] = false
has kind cb (s ∷ subs) = matches kind cb s || has kind cb subs

get_elem?-middle :
    (before rest : List Sub) (s : Sub) → get_elem? (before ++ s ∷ rest) (length before) ≡ some s
get_elem?-middle [] rest s = refl
get_elem?-middle (x ∷ before) rest s = get_elem?-middle before rest s

get_elem?-end : (before : List Sub) → get_elem? before (length before) ≡ none
get_elem?-end [] = refl
get_elem?-end (x ∷ before) = get_elem?-end before

remove_at-middle :
    (before rest : List Sub) (s : Sub)
    → remove_at (before ++ s ∷ rest) (length before) ≡ before ++ rest
remove_at-middle [] rest s = refl
remove_at-middle (x ∷ before) rest s = ap (◌∷◌ x) (remove_at-middle before rest s)

-- One round of the loop.
module _ (kind cb fuel : ℕ) (subs : List Sub) (i : ℕ) (ret : ℤ) where
  round_end : get_elem? subs i ≡ none → remove_loop kind cb (suc fuel) subs i ret ≡ (ret, subs)
  unfolding remove_loop
  round_end e = ground arith

  round_removes :
      (s : Sub)
      → get_elem? subs i ≡ some s
      → matches kind cb s ≡ true
      → remove_loop kind cb (suc fuel) subs i ret
        ≡ remove_loop kind cb fuel (remove_at subs i) i (pos 0)
  unfolding remove_loop
  round_removes s e f = ground arith

  round_passes :
      (s : Sub)
      → get_elem? subs i ≡ some s
      → matches kind cb s ≡ false
      → remove_loop kind cb (suc fuel) subs i ret ≡ remove_loop kind cb fuel subs (suc i) ret
  unfolding remove_loop
  round_passes s e f = ground arith

length-snoc : (before : List Sub) (s : Sub) → length (before ++ s ∷ []) ≡ suc (length before)
length-snoc [] s = refl
length-snoc (x ∷ before) s = ap suc (length-snoc before s)

remove_loop_lem :
    (kind cb fuel : ℕ) (before rest : List Sub) (ret : ℤ)
    → length rest < fuel
    → remove_loop kind cb fuel (before ++ rest) (length before) ret
      ≡ ((if has kind cb rest then pos 0 else ret), before ++ others kind cb rest)
unfolding has others
remove_loop_lem kind cb zero before rest ret h = absurd (omega arith)
remove_loop_lem kind cb (suc fuel) before [] ret h =
    round_end kind cb fuel (before ++ []) (length before) ret
      (ap (λ l. get_elem? l (length before)) (append-nil before) ∙ get_elem?-end before)
remove_loop_lem kind cb (suc fuel) before (s ∷ rest) ret h = elim (Bool-cases (matches kind cb s)) [
  | inl e ↦
      round_removes kind cb fuel (before ++ s ∷ rest) (length before) ret s
        (get_elem?-middle before rest s) e
      ∙ ap (λ l. remove_loop kind cb fuel l (length before) (pos 0))
          (remove_at-middle before rest s)
      ∙ remove_loop_lem kind cb fuel before rest (pos 0) (omega arith)
      ∙ ground arith
  | inr e ↦
      round_passes kind cb fuel (before ++ s ∷ rest) (length before) ret s
        (get_elem?-middle before rest s) e
      ∙ ap₂ (λ l i. remove_loop kind cb fuel l i ret) (sym (append_assoc before (s ∷ []) rest))
          (sym (length-snoc before s))
      ∙ remove_loop_lem kind cb fuel (before ++ s ∷ []) rest ret (omega arith)
      ∙ ground (arith, append_assoc before (s ∷ []) (others kind cb rest))
]

-- ct_pubsub_unsubscribe with a callback always ends; it takes out exactly the subscribers of that type
-- with that callback, leaves the others in order, and answers 0 if there was one and -1 if not.
pub unsubscribe_lem :
    (subs : List Sub) (kind cb : ℕ)
    → unsubscribe subs kind (some cb)
      ≡ ((if has kind cb subs then pos 0 else minus_one), others kind cb subs)
unfolding unsubscribe
unsubscribe_lem subs kind cb =
    remove_loop_lem kind cb (suc (length subs)) [] subs minus_one (omega arith)

publish-append :
    (xs ys : List Sub) (kind : ℕ) → publish (xs ++ ys) kind ≡ publish xs kind ++ publish ys kind
unfolding publish
publish-append [] ys kind = refl
publish-append (s ∷ xs) ys kind = ground (arith, publish-append xs ys kind)

-- the calls of one callback taken out
unfoldable pub silenced : ℕ → List Delivery → List Delivery
silenced cb [] = []
silenced cb (d ∷ calls) = if d.cb == cb then silenced cb calls else d ∷ silenced cb calls

publish-others :
    (subs : List Sub) (kind other cb : ℕ)
    → publish (others kind cb subs) other
      ≡ (if other == kind then silenced cb (publish subs other) else publish subs other)
unfolding publish others silenced
publish-others [] kind other cb = ground arith
publish-others (s ∷ subs) kind other cb = ground (arith, publish-others subs kind other cb)

-- What a publish calls after a successful subscribe is what it called before, and then the new callback
-- with its context if the type is that one. After an unsubscribe it is what it called before, without
-- any of the calls of that callback if the type is that one: all of its subscriptions of the type go.
pub publish_follows :
    (subs : List Sub) (kind other cb user_data : ℕ)
    → (publish (subscribe subs true kind (some cb) user_data).1 other
        ≡ publish subs other
          ++ (if kind == other then record { cb = cb; user_data = user_data } ∷ [] else []))
      × (publish (unsubscribe subs kind (some cb)).1 other
          ≡ (if other == kind then silenced cb (publish subs other) else publish subs other))
unfolding subscribe publish
publish_follows subs kind other cb user_data = (
  publish-append subs (record { kind = kind; cb = cb; user_data = user_data } ∷ []) other
      ∙ ap (λ l. publish subs other ++ l) (one_call),
  ap (λ r. publish r.1 other) (unsubscribe_lem subs kind cb) ∙ publish-others subs kind other cb,
)
  where
    one_call :
        publish (record { kind = kind; cb = cb; user_data = user_data } ∷ []) other
        ≡ (if kind == other then record { cb = cb; user_data = user_data } ∷ [] else [])
    one_call = ground arith
