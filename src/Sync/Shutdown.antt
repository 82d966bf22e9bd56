-- ===== src/Sync/Shutdown.antt =====
-- sync/src/shutdown_signal.c: a flag of cancellation with a deadline.
pub mod Wait
use coter.Base.{
  ℕ, ◌+◌, ◌-◌, ◌^◌, Bool, true, false, not, ℤ, pos, negsuc, minus_one, leb, ltb, ◌&&◌, ◌==◌, zero,
  suc, min, List, [], ◌∷◌, if◌then◌else◌,
}

-- `ct_timeout_signal_t`
pub record TimeoutSignal : Type 0 where
  pub deadline_ms : ℤ
  pub cancelled : Bool

abbrev pub int64_max : ℕ
int64_max = 2 ^ 63 - 1

-- The clock reads `now`, below `int64_max`.
abbrev pub deadline_of : ℤ → ℕ → ℤ
deadline_of (negsuc _) now = minus_one
deadline_of (pos n) now = if ltb (int64_max - now) n then pos int64_max else pos (now + n)

abbrev pub signal_init : ℤ → ℕ → TimeoutSignal
signal_init timeout_ms now = record { deadline_ms = deadline_of timeout_ms now; cancelled = false }

-- whether this call was the first
abbrev pub signal_cancel : TimeoutSignal → Bool × TimeoutSignal
signal_cancel s = (not s.cancelled, record s { cancelled = true })

abbrev pub passed : ℤ → ℕ → Bool
passed (pos n) now = leb n now
passed (negsuc _) now = false

abbrev pub signal_is_done : TimeoutSignal → ℕ → Bool
signal_is_done s now = if s.cancelled then true else passed s.deadline_ms now

abbrev pub left : ℤ → ℕ → ℤ
left (pos n) now = pos (n - now)
left (negsuc _) now = minus_one

abbrev pub signal_remaining : TimeoutSignal → ℕ → ℤ
signal_remaining s now = if s.cancelled then pos 0 else left s.deadline_ms now

-- `ct_shutdown_token_t`: `callback` says whether there is one.
pub record Token : Type 0 where
  pub signal : TimeoutSignal
  pub callback : Bool

-- `mutex` and `cond` say whether ct_mutex_init and ct_cond_init return 0.
abbrev pub token_init : Token → Bool → Bool → ℤ → Bool → ℕ → ℤ × Token
token_init t mutex cond timeout_ms on_cancel now =
    if mutex && cond
    then (pos 0, record { signal = signal_init timeout_ms now; callback = on_cancel })
    else (minus_one, t)

-- The answer, whether the call broadcasts, and whether it runs the callback.
abbrev pub token_cancel : Token → Bool × Bool × Bool × Token
token_cancel t =
    let (first, s) = signal_cancel t.signal in
    (first, first, first && t.callback, record t { signal = s })

-- What one look at the signal of a token finds, and the clock then.
pub record Look : Type 0 where
  pub signal : TimeoutSignal
  pub now : ℕ

abbrev pub is_done : Look → Bool
is_done l = signal_is_done l.signal l.now

-- One round of the wait: the looks of its two calls, and the clock that the caller's time is read from.
pub record Round : Type 0 where
  pub first : Look
  pub second : Look
  pub clock : ℕ

abbrev pub is_positive : ℤ → Bool
is_positive (pos n) = ltb 0 n
is_positive (negsuc _) = false

abbrev pub is_negative : ℤ → Bool
is_negative (pos _) = false
is_negative (negsuc _) = true

abbrev pub is_zero : ℤ → Bool
is_zero (pos n) = n == 0
is_zero (negsuc _) = false

abbrev pub min_of : ℤ → ℤ → ℤ
min_of (pos m) (pos n) = pos (min m n)
min_of x _ = x

-- The time that is left of the caller's, where there is any; without a limit it is -1. The caller's
-- time is over where it is not above 0.
abbrev pub user_left : ℤ → ℕ → ℤ
user_left (pos deadline) clock = pos (deadline - clock)
user_left (negsuc _) clock = minus_one

-- `to_wait`
unfoldable pub to_wait : ℤ → ℤ → ℤ
to_wait remain user_remain =
    if is_positive remain && is_negative user_remain
    then remain
    else if is_negative remain && is_positive user_remain
    then user_remain
    else if is_positive remain && is_positive user_remain
    then min_of remain user_remain
    else minus_one

-- How a call of ct_shutdown_token_wait ends, if the rounds given suffice; the times that it waits for
-- stand before it.
pub data Waited : Type 0 where
  waits : ℤ → Waited → Waited
  returned : Bool → Waited
  waiting : Waited

-- The loop, with the deadline of the caller or -1, and the look after it.
unfoldable pub wait_loop : ℤ → List Round → Look → Waited
wait_loop deadline [] last = waiting
wait_loop deadline (r ∷ rounds) last =
    let rest = wait_loop deadline rounds last in
    let remain = signal_remaining r.second.signal r.second.now in
    let user_remain = user_left deadline r.clock in
    if is_done r.first
    then returned (is_done last)
    else if is_zero remain
    then returned (is_done last)
    else if is_zero user_remain
    then returned (is_done last)
    else waits (to_wait remain user_remain) rest

unfoldable pub token_wait : ℤ → ℕ → List Round → Look → Waited
unfolding wait_loop
token_wait timeout_ms now rounds last = wait_loop (deadline_of timeout_ms now) rounds last
