-- ===== src/Sync/Ref/Count.antt =====
-- The count against the number of references that are owned.
use native.Mathlib.Decide.{ℕ_discrete}
use coter.Base.{
  ℕ, suc, ◌+◌, ◌-◌, ◌≤◌, ◌<◌, ◌≡◌, ◌⊎◌, inl, inr, refl, arith, Bool, true, false, List, [], ◌∷◌,
  ◌==◌, if◌then◌else◌,
}
use coter.Sync.Ref.{
  refcount_max, refcount_saturated, inc_not_zero, inc, dec_and_test, dec_and_mutex_lock,
}

-- ct_ref_get, ct_ref_get_not_zero and ct_ref_put
pub data Op : Type 0 where
  get get_not_zero put : Op

-- The answers of the calls, in order, and the count after them. A ct_ref_get answers nothing.
unfoldable pub run : ℕ → List Op → List Bool × ℕ
run v [] = ([], v)
run v (get ∷ ops) = run (inc v) ops
run v (get_not_zero ∷ ops) =
    let (answer, v') = inc_not_zero v in
    let (answers, final) = run v' ops in (answer ∷ answers, final)
run v (put ∷ ops) =
    let (answer, v') = dec_and_test v in
    let (answers, final) = run v' ops in (answer ∷ answers, final)

-- The same calls on the number of references owned: a reference is had from one that is owned, and the
-- last one put is told.
unfoldable pub owned : ℕ → List Op → List Bool × ℕ
owned n [] = ([], n)
owned n (get ∷ ops) = owned (suc n) ops
owned n (get_not_zero ∷ ops) =
    let (answers, final) = owned (if n == 0 then 0 else suc n) ops in
    ((if n == 0 then false else true) ∷ answers, final)
owned n (put ∷ ops) = let (answers, final) = owned (n - 1) ops in ((n == 1) ∷ answers, final)

-- Only owned references are copied and put, and there are never too many of them.
abbrev pub Legal : ℕ → List Op → Type 0
Legal n [] = Unit
Legal n (get ∷ ops) = (0 < n) × (n < refcount_max) × Legal (suc n) ops
Legal n (get_not_zero ∷ ops) = (n < refcount_max) × Legal (if n == 0 then 0 else suc n) ops
Legal n (put ∷ ops) = (0 < n) × Legal (n - 1) ops

inc_owned : (n : ℕ) → 0 < n → n < refcount_max → inc n ≡ suc n
unfolding inc
inc_owned n h k = ground arith

inc_not_zero_owned :
    (n : ℕ)
    → n < refcount_max
    → inc_not_zero n ≡ ((if n == 0 then false else true), (if n == 0 then 0 else suc n))
unfolding inc_not_zero
inc_not_zero_owned n h = ground arith

put_owned : (n : ℕ) → 0 < n → n ≤ refcount_max → dec_and_test n ≡ ((n == 1), n - 1)
unfolding dec_and_test
put_owned n h k = ground arith

-- Over any sequence of calls that copy and put only owned references, up to the largest count, the
-- count is the number of references owned, every call answers as it should, and exactly the call that
-- puts the last reference is told to release the object.
pub count_is_owned :
    (n : ℕ) (ops : List Op) → n ≤ refcount_max → Legal n ops → run n ops ≡ owned n ops
unfolding run owned
count_is_owned n [] b l = refl
count_is_owned n (get ∷ ops) b l =
    rw (inc_owned n l.0 l.1) (count_is_owned (suc n) ops (omega arith) l.2)
count_is_owned n (get_not_zero ∷ ops) b l =
    let rest = count_is_owned (if n == 0 then 0 else suc n) ops (ground arith) l.1 in
    rw (inc_not_zero_owned n l.0, rest) refl
count_is_owned n (put ∷ ops) b l =
    let rest = count_is_owned (n - 1) ops (omega arith) l.1 in rw (put_owned n l.0 b, rest) refl

-- no call that puts a reference is told to release
abbrev pub NeverLast : List Op → List Bool → Type 0
NeverLast [] answers = answers ≡ []
NeverLast (get ∷ ops) answers = NeverLast ops answers
NeverLast (get_not_zero ∷ ops) (a ∷ answers) = (a ≡ true) × NeverLast ops answers
NeverLast (put ∷ ops) (a ∷ answers) = (a ≡ false) × NeverLast ops answers
NeverLast (_ ∷ ops) [] = ⊥

abbrev pub IsPinned : ℕ → Type 0
IsPinned v = (refcount_saturated ≤ v) × (v ≤ refcount_saturated + 3)

inc-IsPinned : (v : ℕ) → IsPinned v → IsPinned (inc v)
unfolding inc
inc-IsPinned v p = ground arith

inc_not_zero-IsPinned : (v : ℕ) → IsPinned v → inc_not_zero v ≡ (true, v)
unfolding inc_not_zero
inc_not_zero-IsPinned v p = ground arith

put-IsPinned : (v : ℕ) → IsPinned v → ((dec_and_test v).0 ≡ false) × IsPinned (dec_and_test v).1
unfolding dec_and_test
put-IsPinned v p = ground arith

-- Once the count is pinned it stays so, whatever calls are made: no call is ever told to release the
-- object, and every try to get a reference succeeds.
pub stays_saturated :
    (v : ℕ) (ops : List Op) → IsPinned v → NeverLast ops (run v ops).0 × IsPinned (run v ops).1
unfolding run
stays_saturated v [] p = (refl, p)
stays_saturated v (get ∷ ops) p = stays_saturated (inc v) ops (inc-IsPinned v p)
stays_saturated v (get_not_zero ∷ ops) p =
    let (answers, final) = stays_saturated v ops p in
    rw (inc_not_zero-IsPinned v p) ((refl, answers), final)
stays_saturated v (put ∷ ops) p =
    let (refused, p') = put-IsPinned v p in
    let (answers, final) = stays_saturated (dec_and_test v).1 ops p' in ((refused, answers), final)

-- A misuse pins the count: a get from a count of 0, a get beyond the largest count, by either call, and
-- a put with no reference left.
pub misuse_pins :
    (v : ℕ)
    → refcount_max ≤ v
    → v < refcount_saturated
    → IsPinned (inc 0)
      × IsPinned (inc v)
      × IsPinned (inc_not_zero v).1
      × ((dec_and_test 0).0 ≡ false)
      × IsPinned (dec_and_test 0).1
unfolding inc inc_not_zero dec_and_test
misuse_pins v h k = ground arith

-- ct_refcount_dec_and_mutex_lock answers true exactly where it leaves the lock taken, and then the count
-- was 1 at both looks
-- and is 0.
pub mutex_lock_lem :
    (seen later : ℕ)
    → let (last, locked, value) = dec_and_mutex_lock seen later in
      (locked ≡ last) × ((last ≡ false) ⊎ ((seen ≡ 1) × (later ≡ 1) × (value ≡ 0)))
unfolding dec_and_mutex_lock dec_and_test
mutex_lock_lem seen later = elim (ℕ_discrete seen 1) [
  | yes e ↦ elim (ℕ_discrete later 1) [
    | yes f ↦ (ground arith, inr (e, f, ground arith))
    | no f ↦ (ground arith, inl (ground arith))
  ]
  | no e ↦ (ground arith, inl (ground arith))
]
