-- ===== src/Sync/Ref/Swap.antt =====
-- The loops over a compare and swap against the functions under a mutex.
use coter.Base.{
  ℕ, ◌<◌, ◌^◌, ◌≡◌, arith, false, Option, none, some, List, [], ◌∷◌, leb, ltb, ◌==◌, if_intro,
}
use coter.Sync.Ref.{
  inc_not_zero, dec_and_mutex_lock, Attempt, Ended, ended, Dropped, dropped, to_lock,
  inc_not_zero_loop, dec_loop,
}

-- a property of every value that the attempts saw
abbrev pub AllSeen : (ℕ → Type 0) → List Attempt → Type 0
AllSeen P [] = Unit
AllSeen P (a ∷ attempts) = P a.seen × AllSeen P attempts

-- the count after a loop that last saw `seen`
abbrev pub after : ℕ → Option ℕ → ℕ
after seen none = seen
after seen (some written) = written

abbrev pub IncEnds : (ℕ → Type 0) → Ended → Type 0
IncEnds P Ended.trying = Unit
IncEnds P (ended answer seen written) = P seen × (inc_not_zero seen ≡ (answer, after seen written))

abbrev pub DropEnds : (ℕ → Type 0) → ℕ → Dropped → Type 0
DropEnds P later Dropped.trying = Unit
DropEnds P later (dropped seen written) =
    P seen × (dec_and_mutex_lock seen later ≡ (false, false, after seen written))
DropEnds P later (to_lock seen) = P seen × (seen ≡ 1)

inc_loop_lem :
    (P : ℕ → Type 0) (attempts : List Attempt)
    → AllSeen P attempts
    → IncEnds P (inc_not_zero_loop attempts)
unfolding inc_not_zero_loop inc_not_zero
inc_loop_lem P [] h = tt
inc_loop_lem P (a ∷ attempts) h =
    if_intro (IncEnds P) (a.seen == 0) _ _ (λ e. (h.0, ground arith))
      λ e.
        if_intro (IncEnds P) (leb 0xc0000000 a.seen) _ _ (λ f. (h.0, ground arith))
          λ f.
            if_intro (IncEnds P) (ltb 0x7fffffff a.seen) _ _ (λ g. (h.0, ground arith))
              λ g.
                if_intro (IncEnds P) a.swapped _ _ (λ s. (h.0, ground arith))
                  (λ s. inc_loop_lem P attempts h.1)

drop_loop_lem :
    (P : ℕ → Type 0) (later : ℕ) (attempts : List Attempt)
    → AllSeen (λ v. P v × (v < 2 ^ 32)) attempts
    → DropEnds P later (dec_loop attempts)
unfolding dec_loop dec_and_mutex_lock
drop_loop_lem P later [] h = tt
drop_loop_lem P later (a ∷ attempts) h =
    let Q = DropEnds P later in
    let below = h.0.1 in
    if_intro Q (leb 0xc0000000 a.seen) _ _ (λ f. (h.0.0, ground arith))
      λ f.
        if_intro Q (a.seen == 1) _ _ (λ e. (h.0.0, ground arith))
          λ e.
            if_intro Q (ltb 0x7fffffff a.seen) _ _ (λ g. (h.0.0, ground arith))
              λ g.
                if_intro Q (ltb a.seen _) _ _ (λ d. (h.0.0, ground arith))
                  λ d.
                    if_intro Q a.swapped _ _ (λ s. (h.0.0, ground arith))
                      (λ s. drop_loop_lem P later attempts h.1)

-- The loops without a mutex that end, whatever other threads do to the count between the attempts: they
-- have done, at one value that they saw, what the functions under the mutex do there, in answer and in
-- what they leave; the loop of ct_refcount_dec_and_mutex_lock goes on to the lock only from a count of 1.
pub loops_are_atomic :
    (P : ℕ → Type 0) (later : ℕ) (attempts : List Attempt)
    → AllSeen (λ v. P v × (v < 2 ^ 32)) attempts
    → IncEnds (λ v. P v × (v < 2 ^ 32)) (inc_not_zero_loop attempts)
      × DropEnds P later (dec_loop attempts)
loops_are_atomic P later attempts h =
    (inc_loop_lem (λ v. P v × (v < 2 ^ 32)) attempts h, drop_loop_lem P later attempts h)
