-- ===== src/Sync/SemTests.antt =====
-- Tests of the semaphore.
use coter.Base.{◌+◌, ◌≡◌, arith, [], ◌∷◌, List}
use coter.Sync.Sem.{Sem, ok, etimedout}
use coter.Sync.Sem.Tokens.{
  Turn, posts, takes, waits, waits_for, wakes, wakes_for, posts_in, grants, run, tokens_kept,
}

abbrev one_token : Sem
one_token = record { count = 1 }

-- the second wait waits, is woken by the post and takes the token; the one with a deadline gives up
abbrev seven_turns : List Turn
seven_turns = waits ∷ waits ∷ waits_for ∷ posts ∷ wakes ok ∷ wakes_for etimedout ∷ takes ∷ []

tokens_kept_example :
    let (taken, final) = run one_token seven_turns in
    (taken ≡ grants 1 seven_turns) × (1 + posts_in seven_turns ≡ taken + final.count)
tokens_kept_example = tokens_kept one_token seven_turns (omega arith)
