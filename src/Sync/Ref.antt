-- ===== src/Sync/Ref.antt =====
-- sync/src/ref.c and sync/include/coter/sync/ref.h: a reference count that is pinned when it is damaged.
--
-- The functions that take the count's value are those under one mutex for the whole process. The loops
-- over a compare and swap take the list of what their attempts saw.
pub mod Count
pub mod Swap
use coter.Base.{
  ℕ, zero, suc, ◌+◌, ◌-◌, ◌%◌, ◌^◌, Bool, true, false, Option, none, some, List, [], ◌∷◌, leb, ltb,
  ◌==◌, ◌||◌, if◌then◌else◌,
}

-- `REFCOUNT_MAX` and `REFCOUNT_SATURATED`
abbrev pub refcount_max : ℕ
refcount_max = 0x7fffffff

abbrev pub refcount_saturated : ℕ
refcount_saturated = 0xc0000000

-- `refcount_saturation_type_t`
pub data SaturationType : Type 0 where
  add_not_zero_overflow add_overflow add_use_after_free sub_use_after_free : SaturationType

abbrev pub saturate : SaturationType → ℕ
saturate add_not_zero_overflow = refcount_saturated
saturate add_overflow = refcount_saturated + 1
saturate add_use_after_free = refcount_saturated + 2
saturate sub_use_after_free = refcount_saturated + 3

-- uint32_t + 1 and - 1
abbrev pub inc32 : ℕ → ℕ
inc32 v = (v + 1) % 2 ^ 32

abbrev pub dec32 : ℕ → ℕ
dec32 v = (v + 2 ^ 32 - 1) % 2 ^ 32

-- `ct_refcount_init`
abbrev pub start : ℕ
start = 1

unfoldable pub inc_not_zero : ℕ → Bool × ℕ
inc_not_zero old =
    if old == 0
    then (false, old)
    else if leb refcount_saturated old
    then (true, old)
    else if ltb refcount_max old
    then (true, saturate add_not_zero_overflow)
    else (true, (if leb refcount_max old then saturate add_not_zero_overflow else inc32 old))

unfoldable pub inc : ℕ → ℕ
inc old =
    if old == 0
    then saturate add_use_after_free
    else if leb refcount_max old
    then saturate add_overflow
    else inc32 old

unfoldable pub dec_and_test : ℕ → Bool × ℕ
dec_and_test old =
    if old == 1
    then (true, dec32 old)
    else if old == 0 || ltb refcount_max old
    then (false, saturate sub_use_after_free)
    else (false, dec32 old)

-- The first look at the count finds `seen`. Where that is 1, `lock` is taken, and the count is `later`
-- by then. The result: the answer, whether `lock` is still held, and the count.
unfoldable pub dec_and_mutex_lock : ℕ → ℕ → Bool × Bool × ℕ
unfolding dec_and_test
dec_and_mutex_lock seen later =
    if leb refcount_saturated seen
    then (false, false, seen)
    else if seen == 1
    then (let (last, value) = dec_and_test later in (last, last, value))
    else if seen == 0
    then (false, false, saturate sub_use_after_free)
    else if ltb refcount_max seen
    then (false, false, saturate sub_use_after_free)
    else (false, false, dec32 seen)

-- `ct_ref_put_mutex`: `none` is CT_ABORT. The result says first whether `release` was called.
unfoldable pub put_mutex : Bool → ℕ → ℕ → Option (Bool × Bool × ℕ)
unfolding dec_and_mutex_lock
put_mutex release seen later = if release then some (dec_and_mutex_lock seen later) else none

-- One attempt of a loop: the value that it saw, and whether its compare and swap succeeded.
pub record Attempt : Type 0 where
  pub seen : ℕ
  pub swapped : Bool

-- How such a loop ends: with its answer, the value it last saw and the one it last wrote, if it did; or
-- the attempts given do not suffice.
pub data Ended : Type 0 where
  ended : Bool → ℕ → Option ℕ → Ended
  trying : Ended

-- The loop of ct_refcount_inc_not_zero.
unfoldable pub inc_not_zero_loop : List Attempt → Ended
inc_not_zero_loop [] = trying
inc_not_zero_loop (a ∷ attempts) =
    let rest = inc_not_zero_loop attempts in
    if a.seen == 0
    then ended false a.seen none
    else if leb refcount_saturated a.seen
    then ended true a.seen none
    else if ltb refcount_max a.seen
    then ended true a.seen (some (saturate add_not_zero_overflow))
    else if a.swapped
    then (ended true a.seen
        (some (if leb refcount_max a.seen then saturate add_not_zero_overflow else inc32 a.seen)))
    else rest

-- The loop of ct_refcount_dec_and_mutex_lock: it ends the call, or goes on to take the lock.
pub data Dropped : Type 0 where
  dropped : ℕ → Option ℕ → Dropped
  to_lock : ℕ → Dropped
  trying : Dropped

unfoldable pub dec_loop : List Attempt → Dropped
dec_loop [] = Dropped.trying
dec_loop (a ∷ attempts) =
    let rest = dec_loop attempts in
    let desired = dec32 a.seen in
    if leb refcount_saturated a.seen
    then dropped a.seen none
    else if a.seen == 1
    then to_lock a.seen
    else if ltb refcount_max a.seen
    then dropped a.seen (some (saturate sub_use_after_free))
    else if ltb a.seen desired
    then dropped a.seen (some (saturate sub_use_after_free))
    else if a.swapped
    then dropped a.seen (some desired)
    else rest
