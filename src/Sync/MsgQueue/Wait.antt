-- ===== src/Sync/MsgQueue/Wait.antt =====
-- What the blocking and timed calls of a message queue do, whatever the other threads do meanwhile.
use coter.Base.{
  ℕ, suc, ◌+◌, ◌≤◌, ◌≡◌, ◌≢◌, ◌⊎◌, inl, inr, refl, arith, Bool, true, false, Option, none, some,
  List, [], ◌∷◌, Bytes, ℤ, pos, negsuc, ◌==◌, leb, if◌then◌else◌, if_intro,
}
use coter.Container.Queue
use coter.Container.Queue.{Queue}
use coter.Sync.MsgQueue.{
  MsgQueue, Code, ok, epipe, etimedout, is_ok, Signal, Wake, Waited, returned, waiting, Pushed,
  Popped, wait_loop, deadline_at, finish_push, finish_pop, push_for, push, pop_for, pop, try_push,
  try_pop,
}
use coter.Sync.MsgQueue.Start.{code_of_is_ok}

-- a property of every state that the waits leave
abbrev pub AllAfter : (MsgQueue → Type 0) → List Wake → Type 0
AllAfter P [] = Unit
AllAfter P (w ∷ ws) = P w.after × AllAfter P ws

-- a wait before which the clock had reached the deadline
abbrev pub Expires : ℕ → List Wake → Type 0
Expires deadline [] = ⊥
Expires deadline (w ∷ ws) = (deadline ≤ w.now) ⊎ Expires deadline ws

abbrev pub AllOk : List Wake → Type 0
AllOk [] = Unit
AllOk (w ∷ ws) = (is_ok w.result ≡ true) × AllOk ws

-- A loop that returns has seen a state with the property; with code 0 it does not block there.
abbrev LoopEnds : (MsgQueue → Type 0) → (Queue → Bool) → Waited → Type 0
LoopEnds P blocks waiting = Unit
LoopEnds P blocks (returned code m) =
    P m × (is_ok code ≡ true → (m.is_shut ≡ false) × (blocks m.queue ≡ false))

-- how a push ends that saw only states with the property
abbrev pub PushEnds : (MsgQueue → Type 0) → Bytes → Pushed → Type 0
PushEnds P item Pushed.blocked = Unit
PushEnds P item (Pushed.done code signals final) =
    ((m : MsgQueue) × P m × (try_push m (some item) ≡ (code, signals, final)) × (code ≡ ok))
    ⊎ ((is_ok code ≡ false) × (signals ≡ []) × P final)

abbrev pub PopEnds : (MsgQueue → Type 0) → Popped → Type 0
PopEnds P Popped.blocked = Unit
PopEnds P (Popped.done code out signals final) =
    ((m : MsgQueue) × P m × (try_pop m true ≡ (code, out, signals, final)) × (code ≡ ok))
    ⊎ ((is_ok code ≡ false) × (out ≡ none) × (signals ≡ []) × P final)

module _ (P : MsgQueue → Type 0) (blocks : Queue → Bool) (deadline : ℕ) where
  -- Where nothing blocks, and where the queue is shut.
  open_lem :
      (m : MsgQueue)
      → P m
      → blocks m.queue ≡ false
      → LoopEnds P blocks (returned (if m.is_shut then epipe else ok) m)
  open_lem m p free = (p, λ e. (ground arith, free))

  gives_up :
      (code : Code) (m : MsgQueue) → P m → is_ok code ≡ false → LoopEnds P blocks (returned code m)
  gives_up code m p e = (p, λ e'. cc)

  wait_loop_lem :
      (timeout_ms : ℤ) (ws : List Wake) (m : MsgQueue)
      → P m
      → AllAfter P ws
      → LoopEnds P blocks (wait_loop blocks timeout_ms deadline ws m)
  unfolding wait_loop
  wait_loop_lem (pos n) [] m p h =
      if_intro (LoopEnds P blocks) (blocks m.queue) _ _
        (λ _.
          if_intro (LoopEnds P blocks) m.is_shut _ _ (λ _. gives_up epipe m p refl)
            λ _.
              if_intro (LoopEnds P blocks) (n == 0) _ _ (λ _. gives_up etimedout m p refl)
                (λ _. tt))
        (open_lem m p)
  wait_loop_lem (negsuc n) [] m p h =
      if_intro (LoopEnds P blocks) (blocks m.queue) _ _
        (λ _. if_intro (LoopEnds P blocks) m.is_shut _ _ (λ _. gives_up epipe m p refl) (λ _. tt))
        (open_lem m p)
  wait_loop_lem (pos n) (w ∷ ws) m p h =
      if_intro (LoopEnds P blocks) (blocks m.queue) _ _
        (λ _.
          if_intro (LoopEnds P blocks) m.is_shut _ _ (λ _. gives_up epipe m p refl)
            λ _.
              if_intro (LoopEnds P blocks) (n == 0) _ _ (λ _. gives_up etimedout m p refl)
                λ _.
                  if_intro (LoopEnds P blocks) (leb deadline w.now) _ _
                    (λ _. gives_up etimedout m p refl)
                    λ _.
                      if_intro (LoopEnds P blocks) (is_ok w.result) _ _
                        (λ _. wait_loop_lem (pos n) ws w.after h.0 h.1)
                        (gives_up w.result w.after h.0))
        (open_lem m p)
  wait_loop_lem (negsuc n) (w ∷ ws) m p h =
      if_intro (LoopEnds P blocks) (blocks m.queue) _ _
        (λ _.
          if_intro (LoopEnds P blocks) m.is_shut _ _ (λ _. gives_up epipe m p refl)
            λ _.
              if_intro (LoopEnds P blocks) (is_ok w.result) _ _
                (λ _. wait_loop_lem (negsuc n) ws w.after h.0 h.1) (gives_up w.result w.after h.0))
        (open_lem m p)

  -- A timed loop whose waits all succeed ends, at the latest when the clock has reached the deadline.
  wait_loop-returns :
      (n : ℕ) (ws : List Wake) (m : MsgQueue)
      → Expires deadline ws
      → AllOk ws
      → wait_loop blocks (pos n) deadline ws m ≢ waiting
  unfolding wait_loop
  wait_loop-returns n [] m e h = absurd e
  wait_loop-returns n (w ∷ ws) m (inl e) h = ground arith
  wait_loop-returns n (w ∷ ws) m (inr e) h = ground (arith, wait_loop-returns n ws w.after e h.1)

module _ (P : MsgQueue → Type 0) (item : Bytes) where
  finish_push-PushEnds :
      (r : Waited) → LoopEnds P Queue.is_full r → PushEnds P item (finish_push item r)
  unfolding try_push
  finish_push-PushEnds waiting h = tt
  finish_push-PushEnds (returned code m) h =
      if_intro (PushEnds P item) (is_ok code) _ _
        (λ e.
          let (is_open, has_room) = h.1 e in
          let zero_code = code_of_is_ok code e in
          inl (m, h.0, ground (arith, is_open, has_room, zero_code), zero_code))
        (λ e. inr (e, refl, h.0))

finish_pop-PopEnds :
    (P : MsgQueue → Type 0) (r : Waited) → LoopEnds P Queue.is_empty r → PopEnds P (finish_pop r)
unfolding try_pop
finish_pop-PopEnds P waiting h = tt
finish_pop-PopEnds P (returned code m) h =
    if_intro (PopEnds P) (is_ok code) _ _
      (λ e.
        let (is_open, has_item) = h.1 e in
        let zero_code = code_of_is_ok code e in
        inl (m, h.0, ground (arith, is_open, has_item, zero_code), zero_code))
      (λ e. inr (e, refl, refl, h.0))

-- A blocking or timed push that returns, whatever the other threads do: with code 0 it has done at
-- one of the states that it saw exactly what ct_msgqueue_try_push does there; with any other code
-- it has put nothing in and signalled nobody, and leaves a state that it saw.
pub push_for_lem :
    (P : MsgQueue → Type 0) (m : MsgQueue) (item : Bytes) (start : ℕ) (timeout_ms : ℤ)
    (ws : List Wake)
    → P m
    → AllAfter P ws
    → PushEnds P item (push_for m (some item) start timeout_ms ws)
unfolding push_for
push_for_lem P m item start timeout_ms ws p h =
    if_intro (PushEnds P item) m.is_shut _ _ (λ _. inr (refl, refl, p))
      λ _.
        finish_push-PushEnds P item _
          (wait_loop_lem P Queue.is_full (deadline_at start timeout_ms) timeout_ms ws m p h)

-- A blocking or timed pop that returns, whatever the other threads do: with code 0 it has done at one of
-- the states that it saw exactly what ct_msgqueue_try_pop does there; with any other code it has taken
-- nothing out and signalled nobody, and leaves a state that it saw.
pub pop_for_lem :
    (P : MsgQueue → Type 0) (m : MsgQueue) (start : ℕ) (timeout_ms : ℤ) (ws : List Wake)
    → P m
    → AllAfter P ws
    → PopEnds P (pop_for m true start timeout_ms ws)
unfolding pop_for
pop_for_lem P m start timeout_ms ws p h =
    if_intro (PopEnds P) m.is_shut _ _ (λ _. inr (refl, refl, refl, p))
      λ _.
        finish_pop-PopEnds P _
          (wait_loop_lem P Queue.is_empty (deadline_at start timeout_ms) timeout_ms ws m p h)

finish_push-waiting :
    (item : Bytes) (r : Waited) → finish_push item r ≡ Pushed.blocked → r ≡ waiting
finish_push-waiting item waiting e = refl
finish_push-waiting item (returned code m) e = ground arith

finish_pop-waiting : (r : Waited) → finish_pop r ≡ Popped.blocked → r ≡ waiting
finish_pop-waiting waiting e = refl
finish_pop-waiting (returned code m) e = ground arith

-- A loop on a shut queue returns at once.
shut_returns :
    (blocks : Queue → Bool) (timeout_ms : ℤ) (deadline : ℕ) (ws : List Wake) (m : MsgQueue)
    → m.is_shut ≡ true
    → wait_loop blocks timeout_ms deadline ws m ≡ returned epipe m
unfolding wait_loop
shut_returns blocks timeout_ms deadline [] m e = ground arith
shut_returns blocks timeout_ms deadline (w ∷ ws) m e = ground arith

-- A push with a limit above 0 whose waits all return 0 has returned at the latest when the clock
-- reaches the deadline; and so has such a pop.
pub timed_return :
    (m : MsgQueue) (item : Bytes) (start n : ℕ) (ws : List Wake)
    → Expires (start + suc n) ws
    → AllOk ws
    → (push_for m (some item) start (pos (suc n)) ws ≢ Pushed.blocked)
      × (pop_for m true start (pos (suc n)) ws ≢ Popped.blocked)
unfolding push_for pop_for
timed_return m item start n ws e h =
    let limit : deadline_at start (pos (suc n)) ≡ start + suc n = ground arith in
    rw limit (
      if_intro (λ r. r ≢ Pushed.blocked) m.is_shut _ _ (λ _ q. cc)
          λ _ q.
            wait_loop-returns (λ _. Unit {0}) Queue.is_full (start + suc n) (suc n) ws m e h
              (finish_push-waiting item _ q),
      if_intro (λ r. r ≢ Popped.blocked) m.is_shut _ _ (λ _ q. cc)
          λ _ q.
            wait_loop-returns (λ _. Unit {0}) Queue.is_empty (start + suc n) (suc n) ws m e h
              (finish_pop-waiting _ q),
    )

-- what a call is that does not wait
abbrev pub acted_push : Code × List Signal × MsgQueue → Pushed
acted_push (code, signals, m) = Pushed.done code signals m

abbrev pub acted_pop : Code × Option Bytes × List Signal × MsgQueue → Popped
acted_pop (code, out, signals, m) = Popped.done code out signals m

-- A blocking push or pop that has to wait returns EPIPE at the next successful wake if the queue is
-- shut by then, even if it could act there; one that need not wait does what the immediate call does.
pub shut_wakes :
    (m : MsgQueue) (item : Bytes) (w : Wake) (ws : List Wake)
    → m.is_shut ≡ false
    → is_ok w.result ≡ true
    → w.after.is_shut ≡ true
    → (push m (some item) (w ∷ ws) ≡ (
        if Queue.is_full m.queue
        then Pushed.done epipe [] w.after
        else acted_push (try_push m (some item))))
      × (pop m true (w ∷ ws) ≡ (
          if Queue.is_empty m.queue
          then Popped.done epipe none [] w.after
          else acted_pop (try_pop m true)))
unfolding push pop push_for pop_for wait_loop try_push try_pop
shut_wakes m item w ws a c d = (
  ground (arith, shut_returns Queue.is_full (negsuc 0) 0 ws w.after d),
  ground (arith, shut_returns Queue.is_empty (negsuc 0) 0 ws w.after d),
)
