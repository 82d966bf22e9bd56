-- ===== src/Sync/Sem/Tokens.antt =====
-- No token of a semaphore is lost or made.
use coter.Base.{
  ℕ, ◌+◌, ◌-◌, ◌≤◌, ◌<◌, ◌^◌, ◌≡◌, ◌==◌, refl, ap, ◌∙◌, arith, Bool, true, false, List, [], ◌∷◌,
  if◌then◌else◌, Bool-cases, inl, inr,
}
use coter.Sync.Sem.{
  Sem, Os, Code, ok, einval, eagain, etimedout, is_ok, trywait, post, Ended, returned, waiting,
  Wake, stretch, always_einval, timeout_or_einval, wait_loop, wait, wait_for,
}

-- What threads do under the mutex, in order: a post, a trywait, the beginning of a wait or of a wait with
-- a deadline, or what such a wait does when it comes back with a code.
pub data Turn : Type 0 where
  posts takes waits waits_for : Turn
  wakes wakes_for : Code → Turn

abbrev all_fine : Os
all_fine = record { lock = true; signal = true; unlock = true }

-- the token taken, where the call returns 0, and the semaphore then
abbrev outcome : Sem → Ended → ℕ × Sem
outcome sem waiting = (0, sem)
outcome sem (returned code after) = ((if is_ok code then 1 else 0), after)

abbrev woken : Sem → Code → List Wake
woken sem code = record { result = code; after = sem } ∷ []

unfoldable pub turn : Sem → Turn → ℕ × Sem
turn sem posts = (0, (post all_fine sem).1)
turn sem takes = let (code, after) = trywait all_fine sem in outcome sem (returned code after)
turn sem waits = outcome sem (wait all_fine sem [])
turn sem waits_for = outcome sem (wait_for all_fine sem [])
turn sem (wakes code) = outcome sem (wait_loop always_einval all_fine waiting (woken sem code))
turn sem (wakes_for code) =
    outcome sem (wait_loop timeout_or_einval all_fine waiting (woken sem code))

-- The tokens taken and the semaphore at the end.
unfoldable pub run : Sem → List Turn → ℕ × Sem
run sem [] = (0, sem)
run sem (t ∷ ts) =
    let (one, after) = turn sem t in let (taken, final) = run after ts in (one + taken, final)

-- A semaphore as a number: a post adds one, and all others take one if there is one, but for a wait that
-- comes back with an error.
abbrev pub posted : Turn → ℕ
posted posts = 1
posted _ = 0

abbrev pub asks : Turn → Bool
asks posts = false
asks (wakes code) = is_ok code
asks (wakes_for code) = is_ok code
asks _ = true

abbrev pub granted : ℕ → Turn → ℕ
granted n t = if asks t then (if n == 0 then 0 else 1) else 0

abbrev pub posts_in : List Turn → ℕ
posts_in [] = 0
posts_in (t ∷ ts) = posted t + posts_in ts

abbrev pub grants : ℕ → List Turn → ℕ
grants n [] = 0
grants n (t ∷ ts) = granted n t + grants (n + posted t - granted n t) ts

abbrev with_count : ℕ → Sem
with_count n = record { count = n }

-- a token is taken if there is one
stretch_lem :
    (n : ℕ)
    → let k : ℕ = if n == 0 then 0 else 1 in
      outcome (with_count n) (stretch all_fine (with_count n)) ≡ (k, with_count (n + 0 - k))
stretch_lem n = elim (Bool-cases (n == 0)) [
  | inl e ↦ rw e (ap (λ m. (0, with_count m)) (omega arith))
  | inr e ↦ rw e (ap (λ m. (1, with_count m)) (omega arith))
]

-- with no wait to come back from
wait_loop_lem :
    (failed : Code → Code) (n : ℕ)
    → wait_loop failed all_fine (stretch all_fine (with_count n)) []
      ≡ stretch all_fine (with_count n)
unfolding wait_loop
wait_loop_lem failed n = elim (Bool-cases (n == 0)) [ inl e ↦ rw e refl | inr e ↦ rw e refl ]

wait-stretch :
    (failed : Code → Code) (n : ℕ)
    → let k : ℕ = if n == 0 then 0 else 1 in
      outcome (with_count n) (wait_loop failed all_fine (stretch all_fine (with_count n)) [])
      ≡ (k, with_count (n + 0 - k))
wait-stretch failed n = ap (outcome (with_count n)) (wait_loop_lem failed n) ∙ stretch_lem n

trywait-stretch :
    (n : ℕ)
    → let (code, after) = trywait all_fine (with_count n) in
      outcome (with_count n) (returned code after)
      ≡ outcome (with_count n) (stretch all_fine (with_count n))
unfolding trywait
trywait-stretch n = elim (Bool-cases (n == 0)) [ inl e ↦ rw e refl | inr e ↦ rw e refl ]

failed-none : (n : ℕ) → let kept : ℕ → ℕ × Sem = λ m. (0, with_count m) in kept n ≡ kept (n + 0 - 0)
failed-none n = ap (λ m. (0, with_count m)) (omega arith)

turn_lem :
    (n : ℕ) (t : Turn)
    → n + posted t < 2 ^ 32
    → turn (with_count n) t ≡ (granted n t, with_count (n + posted t - granted n t))
unfolding turn post wait wait_for wait_loop
turn_lem n posts h = ap (λ m. (0, with_count m)) (omega arith)
turn_lem n takes h = trywait-stretch n ∙ stretch_lem n
turn_lem n waits h = wait-stretch always_einval n
turn_lem n waits_for h = wait-stretch timeout_or_einval n
turn_lem n (wakes ok) h = wait-stretch always_einval n
turn_lem n (wakes_for ok) h = wait-stretch timeout_or_einval n
turn_lem n (wakes einval) h = failed-none n
turn_lem n (wakes eagain) h = failed-none n
turn_lem n (wakes etimedout) h = failed-none n
turn_lem n (wakes_for einval) h = failed-none n
turn_lem n (wakes_for eagain) h = failed-none n
turn_lem n (wakes_for etimedout) h = failed-none n

granted_le : (n : ℕ) (t : Turn) → granted n t ≤ n
granted_le n t = ground arith

-- In any order of posts, trywaits and the two kinds of wait, each taken where it holds the mutex, from
-- its call or from where its wait comes back, where the other calls of the system succeed and the tokens
-- do not pass 2 ^ 32: a call takes a token and returns 0 exactly if there is one (a wait that comes back
-- with an error takes none), and what was there and what was posted is what was taken and what is left.
pub tokens_kept :
    (sem : Sem) (ts : List Turn)
    → sem.count + posts_in ts < 2 ^ 32
    → let (taken, final) = run sem ts in
      (taken ≡ grants sem.count ts) × (sem.count + posts_in ts ≡ taken + final.count)
unfolding run
tokens_kept sem [] h = (refl, omega arith)
tokens_kept sem (t ∷ ts) h =
    let n = sem.count in
    let after = with_count (n + posted t - granted n t) in
    let (taken, kept) = tokens_kept after ts (omega arith) in
    rw (turn_lem n t (omega arith))
      (ap (λ k. granted n t + k) taken, omega (arith, kept, granted_le n t))
