-- ===== src/Sync/CountTests.antt =====
-- Concrete runs of the reference count, of the subscribers and of the shutdown token.
use coter.Base.{
  ℕ, ◌<◌, ◌^◌, ◌≡◌, ◌++◌, arith, true, false, some, pos, [], ◌∷◌, List, ◌==◌, if◌then◌else◌,
}
use coter.Sync.Ref.{Attempt, inc_not_zero_loop, dec_loop}
use coter.Sync.Ref.Count.{Op, get, get_not_zero, put, run, owned, count_is_owned}
use coter.Sync.Ref.Swap.{IncEnds, DropEnds, loops_are_atomic}
use coter.Sync.Shutdown.{Look, Round, token_wait}
use coter.Sync.Shutdown.Wait.{Timely, token_wait_lem}
use coter.Sync.PubSub.{Sub, subscribe, unsubscribe, publish}
use coter.Sync.PubSub.Laws.{silenced, publish_follows}

abbrev calls : List Op
calls = get ∷ put ∷ get_not_zero ∷ put ∷ put ∷ get_not_zero ∷ []

count_is_owned_example : run 1 calls ≡ owned 1 calls
count_is_owned_example = count_is_owned 1 calls (omega arith) (
  omega arith,
  omega arith,
  (omega arith, (omega arith, (omega arith, (omega arith, (omega arith, tt))))),
)

abbrev Few : ℕ → Type 0
Few v = v < 10

-- another thread takes a reference between the two attempts
abbrev attempts : List Attempt
attempts = record { seen = 2; swapped = false } ∷ record { seen = 3; swapped = true } ∷ []

loops_are_atomic_example :
    IncEnds (λ v. Few v × (v < 2 ^ 32)) (inc_not_zero_loop attempts)
    × DropEnds Few 5 (dec_loop attempts)
loops_are_atomic_example =
    loops_are_atomic Few 5 attempts ((omega arith, omega arith), ((omega arith, omega arith), tt))

abbrev three_subs : List Sub
three_subs =
    record { kind = 1; cb = 40; user_data = 5 }
    ∷ record { kind = 1; cb = 41; user_data = 6 }
    ∷ record { kind = 2; cb = 40; user_data = 7 }
    ∷ []

publish_follows_example :
    (publish (subscribe three_subs true 1 (some 40) 9).1 1
      ≡ publish three_subs 1 ++ (if 1 == 1 then record { cb = 40; user_data = 9 } ∷ [] else []))
    × (publish (unsubscribe three_subs 1 (some 40)).1 1
        ≡ (if 1 == 1 then silenced 40 (publish three_subs 1) else publish three_subs 1))
publish_follows_example = publish_follows three_subs 1 1 40 9

-- a token with a deadline at 50, looked at twice and then past the caller's time
abbrev until_50 : ℕ → Look
until_50 now = record { signal = record { deadline_ms = pos 50; cancelled = false }; now = now }

abbrev two_rounds : List Round
two_rounds =
    record { first = until_50 10; second = until_50 11; clock = 12 }
    ∷ record { first = until_50 26; second = until_50 26; clock = 26 }
    ∷ []

token_wait_lem_example :
    Timely (pos 15) 10 two_rounds (until_50 27) (token_wait (pos 15) 10 two_rounds (until_50 27))
token_wait_lem_example = token_wait_lem (pos 15) 10 two_rounds (until_50 27)
