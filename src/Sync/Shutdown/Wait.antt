-- ===== src/Sync/Shutdown/Wait.antt =====
-- How long a wait for a shutdown token lasts, and why it ends.
use coter.Base.{
  ℕ, ◌+◌, ◌≤◌, ◌<◌, ◌≡◌, ◌⊎◌, inl, inr, refl, arith, Bool, true, false, ℤ, pos, negsuc, List, [],
  ◌∷◌, if_intro, leb, lt-total,
}
use coter.Sync.Shutdown.{
  Look, Round, int64_max, is_done, signal_is_done, signal_remaining, is_zero, user_left, to_wait,
  Waited, waits, returned, waiting, wait_loop, token_wait, deadline_of,
}

-- the signal is cancelled or its deadline has come, and the opposite; a negative deadline is none
abbrev pub Past : ℤ → ℕ → Type 0
Past (pos d) now = d ≤ now
Past (negsuc _) now = ⊥

abbrev pub Before : ℤ → ℕ → Type 0
Before (pos d) now = now < d
Before (negsuc _) now = Unit

abbrev pub Ended : Look → Type 0
Ended l = (l.signal.cancelled ≡ true) ⊎ Past l.signal.deadline_ms l.now

abbrev pub Open : Look → Type 0
Open l = (l.signal.cancelled ≡ false) × Before l.signal.deadline_ms l.now

-- A wait of `z` milliseconds, or without end where `z` is negative, that begins when the clock reads
-- `clock`: it ends by a deadline, if there is one.
abbrev pub EndsBy : ℤ → ℕ → ℤ → Type 0
EndsBy (pos d) clock (pos z) = (0 < z) × (clock + z ≤ d)
EndsBy (pos d) clock (negsuc _) = ⊥
EndsBy (negsuc _) clock z = Unit

-- It ends within the caller's timeout, which runs from `now`; a negative timeout is none.
abbrev pub Within : ℤ → ℕ → ℕ → ℤ → Type 0
Within (pos t) now clock z = EndsBy (pos (now + t)) clock z
Within (negsuc _) now clock z = Unit

-- The caller's timeout is over, or the clock is at its end.
abbrev pub Over : ℤ → ℕ → ℕ → Type 0
Over (pos t) now clock = (now + t ≤ clock) ⊎ (int64_max ≤ clock)
Over (negsuc _) now clock = ⊥

abbrev pub Answered : Look → Bool → Type 0
Answered last true = Ended last
Answered last false = Open last

-- What the rounds do: each wait is for a signal that is not cancelled, by its deadline and within the
-- caller's timeout, and a return has its reason in the round that returns.
abbrev pub Timely : ℤ → ℕ → List Round → Look → Waited → Type 0
Timely timeout now (r ∷ rounds) last (waits z rest) =
    ((r.second.signal.cancelled ≡ false)
      × EndsBy r.second.signal.deadline_ms r.second.now z
      × Within timeout now r.clock z)
    × Timely timeout now rounds last rest
Timely timeout now (r ∷ rounds) last (returned answer) =
    (Ended r.first ⊎ (Ended r.second ⊎ Over timeout now r.clock)) × Answered last answer
Timely timeout now [] last (waits z rest) = ⊥
Timely timeout now [] last (returned answer) = ⊥
Timely timeout now rounds last waiting = Unit

-- a wait of `z` for what is left, `x`
abbrev Short : ℤ → ℤ → Type 0
Short (pos n) (pos m) = (0 < n) × (n ≤ m)
Short (negsuc _) (pos m) = ⊥
Short z (negsuc _) = Unit

to_wait-Short :
    (x y : ℤ)
    → is_zero x ≡ false
    → is_zero y ≡ false
    → Short (to_wait x y) x × Short (to_wait x y) y
unfolding to_wait
to_wait-Short (pos m) (pos n) p q = ground arith
to_wait-Short (pos m) (negsuc n) p q = ground arith
to_wait-Short (negsuc m) (pos n) p q = ground arith
to_wait-Short (negsuc m) (negsuc n) p q = (tt, tt)

done-Ended :
    (d : ℤ) (c : Bool) (now : ℕ)
    → signal_is_done (record { deadline_ms = d; cancelled = c }) now ≡ true
    → (c ≡ true) ⊎ Past d now
done-Ended d true now e = inl refl
done-Ended (pos d) false now e = inr (ground arith)
done-Ended (negsuc d) false now e = absurd (cc)

look-Answered :
    (d : ℤ) (c : Bool) (now : ℕ)
    → let l : Look = record { signal = record { deadline_ms = d; cancelled = c }; now = now } in
      Answered l (is_done l)
look-Answered d true now = inl refl
look-Answered (pos d) false now = elim (lt-total now d) [
  | inl p ↦ let early : leb d now ≡ false = ground arith in rw early (refl, p)
  | inr p ↦ let late : leb d now ≡ true = ground arith in rw late (inr p)
]
look-Answered (negsuc d) false now = (refl, tt)

none_left-Ended :
    (d : ℤ) (c : Bool) (now : ℕ)
    → is_zero (signal_remaining (record { deadline_ms = d; cancelled = c }) now) ≡ true
    → (c ≡ true) ⊎ Past d now
none_left-Ended d true now e = inl refl
none_left-Ended (pos d) false now e = inr (ground arith)
none_left-Ended (negsuc d) false now e = absurd (cc)

left-EndsBy :
    (d : ℤ) (c : Bool) (now : ℕ) (z : ℤ)
    → Short z (signal_remaining (record { deadline_ms = d; cancelled = c }) now)
    → (c ≡ false) × EndsBy d now z
left-EndsBy d true now (pos z) h = absurd (omega arith)
left-EndsBy d true now (negsuc z) h = absurd h
left-EndsBy (pos d) false now (pos z) h = (refl, omega arith)
left-EndsBy (pos d) false now (negsuc z) h = absurd h
left-EndsBy (negsuc d) false now z h = (refl, tt)

user_left-Within :
    (t : ℤ) (now clock : ℕ) (z : ℤ)
    → Short z (user_left (deadline_of t now) clock)
    → Within t now clock z
user_left-Within (pos t) now clock (pos z) h = ground arith
user_left-Within (pos t) now clock (negsuc z) h = ground arith
user_left-Within (negsuc t) now clock z h = tt

user_left-Over :
    (t : ℤ) (now clock : ℕ)
    → is_zero (user_left (deadline_of t now) clock) ≡ true
    → Over t now clock
user_left-Over (pos t) now clock h = ground arith
user_left-Over (negsuc t) now clock h = absurd (cc)

wait_loop-Timely :
    (t : ℤ) (now : ℕ) (rounds : List Round) (last : Look)
    → Timely t now rounds last (wait_loop (deadline_of t now) rounds last)
unfolding wait_loop
wait_loop-Timely t now [] last = tt
wait_loop-Timely t now (r ∷ rounds) last =
    let T = Timely t now (r ∷ rounds) last in
    let sig = r.second.signal in
    let answered = look-Answered last.signal.deadline_ms last.signal.cancelled last.now in
    let remain = signal_remaining sig r.second.now in
    let user_remain = user_left (deadline_of t now) r.clock in
    if_intro T (is_done r.first) _ _
      (λ e. (
        inl (done-Ended r.first.signal.deadline_ms r.first.signal.cancelled r.first.now e),
        answered,
      ))
      λ _.
        if_intro T (is_zero remain) _ _
          (λ e.
            (inr (inl (none_left-Ended sig.deadline_ms sig.cancelled r.second.now e)), answered))
          λ e.
            if_intro T (is_zero user_remain) _ _
              (λ f. (inr (inr (user_left-Over t now r.clock f)), answered))
              λ f.
                let z = to_wait remain user_remain in
                let (short, in_time) = to_wait-Short remain user_remain e f in
                let (live, by) = left-EndsBy sig.deadline_ms sig.cancelled r.second.now z short in
                (
                  (live, by, user_left-Within t now r.clock z in_time),
                  wait_loop-Timely t now rounds last,
                )

-- In every round of ct_shutdown_token_wait, called when the clock reads `now`, that waits: the token was
-- not seen cancelled; if it has a deadline the wait, of at least a millisecond, ends by it, counted from
-- when the time left was read; and if the caller gives a timeout the wait ends within that many
-- milliseconds of `now`. A round that returns has seen the token cancelled or past its deadline, or the
-- caller's timeout over (or the clock at its end), and the answer says which of the first two the last
-- look finds: true if one of them, false if none.
pub token_wait_lem :
    (timeout_ms : ℤ) (now : ℕ) (rounds : List Round) (last : Look)
    → Timely timeout_ms now rounds last (token_wait timeout_ms now rounds last)
unfolding token_wait
token_wait_lem timeout_ms now rounds last = wait_loop-Timely timeout_ms now rounds last
