-- ===== src/Sync/Event/Laws.antt =====
-- What the waits for an event take.
use coter.Base.{
  ℕ, ◌+◌, ◌≤◌, ◌≡◌, ◌≢◌, ◌⊎◌, inl, inr, refl, arith, false, List, [], ◌∷◌, leb, ◌==◌, if_intro,
}
use coter.Sync.Event.{
  Event, Code, ok, etimedout, is_ok, Wake, Ended, returned, waiting, taken, wait, wait_until,
  timedwait,
}

-- a property of every state that the waits leave
abbrev pub AllAfter : (Event → Type 0) → List Wake → Type 0
AllAfter P [] = Unit
AllAfter P (w ∷ ws) = P w.after × AllAfter P ws

-- a wait before which the clock had reached the deadline
abbrev pub Expires : ℕ → List Wake → Type 0
Expires deadline [] = ⊥
Expires deadline (w ∷ ws) = (deadline ≤ w.now) ⊎ Expires deadline ws

-- With code 0 a signalled state was seen and the signal is taken; with another code nothing is.
abbrev pub WaitEnds : (Event → Type 0) → Ended → Type 0
WaitEnds P waiting = Unit
WaitEnds P (returned code event) =
    ((e : Event) × P e × (e.count ≢ 0) × (code ≡ ok) × (event ≡ record { count = 0 }))
    ⊎ ((is_ok code ≡ false) × P event)

module _ (P : Event → Type 0) where
  signalled : (event : Event) → P event → (event.count == 0) ≡ false → WaitEnds P (taken ok event)
  signalled event p e = inl (event, p, ground arith, refl, refl)

  failed :
      (code : Code) (event : Event) → P event → is_ok code ≡ false → WaitEnds P (taken code event)
  failed code event p e = inr (e, rw e p)

  wait-WaitEnds :
      (event : Event) (ws : List Wake) → P event → AllAfter P ws → WaitEnds P (wait event ws)
  unfolding wait
  wait-WaitEnds event [] p h =
      if_intro (WaitEnds P) (event.count == 0) _ _ (λ _. tt) (signalled event p)
  wait-WaitEnds event (w ∷ ws) p h =
      if_intro (WaitEnds P) (event.count == 0) _ _
        (λ _.
          if_intro (WaitEnds P) (is_ok w.result) _ _ (λ _. wait-WaitEnds w.after ws h.0 h.1)
            (failed w.result w.after h.0))
        (signalled event p)

  wait_until-WaitEnds :
      (deadline : ℕ) (event : Event) (ws : List Wake)
      → P event
      → AllAfter P ws
      → WaitEnds P (wait_until deadline event ws)
  unfolding wait_until
  wait_until-WaitEnds deadline event [] p h =
      if_intro (WaitEnds P) (event.count == 0) _ _ (λ _. tt) (signalled event p)
  wait_until-WaitEnds deadline event (w ∷ ws) p h =
      if_intro (WaitEnds P) (event.count == 0) _ _
        (λ _.
          if_intro (WaitEnds P) (leb deadline w.now) _ _ (λ _. failed etimedout event p refl)
            λ _.
              if_intro (WaitEnds P) (is_ok w.result) _ _
                (λ _. wait_until-WaitEnds deadline w.after ws h.0 h.1)
                (failed w.result w.after h.0))
        (signalled event p)

-- ct_event_wait and ct_event_timedwait that return, whatever the other threads do: with code 0 the event
-- was signalled at a state that they saw, and they reset it; with another code they take nothing and
-- leave a state that they saw.
pub event_taken :
    (P : Event → Type 0) (event : Event) (timeout_ms start : ℕ) (ws : List Wake)
    → P event
    → AllAfter P ws
    → WaitEnds P (wait event ws) × WaitEnds P (timedwait event timeout_ms start ws)
unfolding timedwait
event_taken P event timeout_ms start ws p h =
    (wait-WaitEnds P event ws p h, wait_until-WaitEnds P (start + timeout_ms) event ws p h)

-- ct_event_timedwait has returned at the latest when the clock reaches the deadline.
pub event_ends :
    (event : Event) (timeout_ms start : ℕ) (ws : List Wake)
    → Expires (start + timeout_ms) ws
    → timedwait event timeout_ms start ws ≢ waiting
unfolding timedwait wait_until
event_ends event timeout_ms start [] e = absurd e
event_ends event timeout_ms start (w ∷ ws) (inl e) = ground arith
event_ends event timeout_ms start (w ∷ ws) (inr e) =
    ground (arith, event_ends w.after timeout_ms start ws e)
