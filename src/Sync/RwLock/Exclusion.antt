-- ===== src/Sync/RwLock/Exclusion.antt =====
-- Who holds a read-write lock, over any interleaving of the steps of threads.
use coter.Base.{
  ℕ, suc, ◌-◌, ◌^◌, ◌≡◌, ◌⊎◌, inl, inr, refl, arith, true, false, List, [], ◌∷◌, pos, minus_one,
  ◌==◌, if◌then◌else◌, if_intro,
}
use coter.Sync.RwLock.{
  RwLock, Os, ok, is_ok, is_zero, bars_readers, Wake, Ended, returned, waiting, read_loop,
  write_loop, woken, enter_read, enter_write, rdlock, wrlock, tryrdlock, trywrlock, rdunlock,
  wrunlock,
}

-- every call on the mutex and the condition variables succeeds
abbrev pub working : Os
working = record { lock = ok; unlock = ok; signal = ok }

-- What a thread does in one stretch under the mutex: it tries to take the lock to read or to write; it
-- makes the test of a blocking call, at its start or after a wait, and is let in or waits; it gives back
-- what it holds; or it begins or ends to wait as a writer, which leaves so many of them waiting.
pub data Turn : Type 0 where
  read_in write_in read_test write_test read_out write_out : Turn
  waiters : ℕ → Turn

-- the lock, and who holds it
pub record Held : Type 0 where
  pub lock : RwLock
  pub readers : ℕ
  pub writers : ℕ

-- A thread whose call returns 0 holds the lock.
abbrev reader_after : Held → Ended → Held
reader_after h waiting = h
reader_after h (returned r) = record h {
  lock = r.1;
  readers = if is_ok r.0 then suc h.readers else h.readers;
}

abbrev writer_after : Held → Ended → Held
writer_after h waiting = h
writer_after h (returned r) = record h {
  lock = r.1;
  writers = if is_ok r.0 then suc h.writers else h.writers;
}

-- Only a holder gives the lock back; a thread that is refused holds nothing.
unfoldable pub turn : Held → Turn → Held
turn h read_in = reader_after h (returned (tryrdlock working h.lock))
turn h write_in = writer_after h (returned (trywrlock working h.lock))
turn h read_test = reader_after h (rdlock working h.lock [])
turn h write_test = writer_after h (wrlock working h.lock [])
turn h read_out =
    if h.readers == 0
    then h
    else record h { lock = (rdunlock working h.lock).1; readers = h.readers - 1 }
turn h write_out =
    if h.writers == 0
    then h
    else record h { lock = (wrunlock working h.lock).1; writers = h.writers - 1 }
turn h (waiters n) = record h { lock = record h.lock { waiting_writers = n } }

unfoldable pub turns : Held → List Turn → Held
turns h [] = h
turns h (t ∷ ts) = turns (turn h t) ts

-- The word in the lock counts the readers and there is no writer, or it stands for the one writer and
-- there are no readers.
abbrev pub Agrees : Held → Type 0
Agrees h =
    ((h.writers ≡ 0) × (h.lock.state ≡ pos h.readers))
    ⊎ ((h.writers ≡ 1) × (h.readers ≡ 0) × (h.lock.state ≡ minus_one))

-- a property of every state that the waits leave
abbrev pub AllAfter : (RwLock → Type 0) → List Wake → Type 0
AllAfter P [] = Unit
AllAfter P (w ∷ ws) = P w.after × AllAfter P ws

-- How a blocking call ends: as the immediate one does at a state that was seen, or with an error
-- from a wait, or it is still waiting.
abbrev pub ReadEnds : (RwLock → Type 0) → Os → Ended → Type 0
ReadEnds P os waiting = Unit
ReadEnds P os (returned r) =
    ((l : RwLock) × P l × (bars_readers l ≡ false) × (tryrdlock os l ≡ r))
    ⊎ ((is_ok r.0 ≡ false) × P r.1)

-- ct_rwlock_rdlock that returns, whatever the other threads do: it has done at a state that it saw, one
-- with no writer inside or waiting, what ct_rwlock_tryrdlock does there; or it returns the error of a
-- call of the system and leaves a state that it saw as it was.
pub rdlock_lem :
    (P : RwLock → Type 0) (os : Os) (l : RwLock) (ws : List Wake)
    → P l
    → AllAfter P ws
    → ReadEnds P os (rdlock os l ws)
unfolding rdlock read_loop tryrdlock
rdlock_lem P os l ws p h =
    if_intro (ReadEnds P os) (is_ok os.lock) _ _ (λ e. loop e l ws p h) (λ e. inr (e, p))
  where
    entered :
        is_ok os.lock ≡ true
        → (m : RwLock) → P m
        → bars_readers m ≡ false
        → ReadEnds P os (returned (enter_read os m))
    entered e m q f = inl (m, q, f, ground arith)

    loop :
        is_ok os.lock ≡ true
        → (m : RwLock) (vs : List Wake) → P m
        → AllAfter P vs
        → ReadEnds P os (read_loop os m vs)
    loop e m [] q k = if_intro (ReadEnds P os) (bars_readers m) _ _ (λ _. tt) (entered e m q)
    loop e m (v ∷ vs) q k =
        if_intro (ReadEnds P os) (bars_readers m) _ _
          (λ _.
            if_intro (ReadEnds P os) (is_ok v.result) _ _ (λ _. loop e v.after vs k.0 k.1)
              (λ f. inr (f, k.0)))
          (entered e m q)

-- the same, with the writer that waited no longer counted
abbrev pub AllWoken : (RwLock → Type 0) → List Wake → Type 0
AllWoken P [] = Unit
AllWoken P (w ∷ ws) = P (woken w.after) × AllWoken P ws

abbrev pub WriteEnds : (RwLock → Type 0) → Os → Ended → Type 0
WriteEnds P os waiting = Unit
WriteEnds P os (returned r) =
    ((l : RwLock) × P l × (is_zero l.state ≡ true) × (trywrlock os l ≡ r))
    ⊎ ((is_ok r.0 ≡ false) × P r.1)

-- ct_rwlock_wrlock that returns, whatever the other threads do: it has done at a state that it saw, one
-- that nobody holds, what ct_rwlock_trywrlock does there; or it returns an error, no longer counts as
-- a waiting writer, and leaves a state that it saw as it was.
pub wrlock_lem :
    (P : RwLock → Type 0) (os : Os) (l : RwLock) (ws : List Wake)
    → P l
    → AllWoken P ws
    → WriteEnds P os (wrlock os l ws)
unfolding wrlock write_loop trywrlock
wrlock_lem P os l ws p h =
    if_intro (WriteEnds P os) (is_ok os.lock) _ _ (λ e. loop e l ws p h) (λ e. inr (e, p))
  where
    entered :
        is_ok os.lock ≡ true
        → (m : RwLock) → P m
        → is_zero m.state ≡ true
        → WriteEnds P os (returned (enter_write os m))
    entered e m q f = inl (m, q, f, ground arith)

    loop :
        is_ok os.lock ≡ true
        → (m : RwLock) (vs : List Wake) → P m
        → AllWoken P vs
        → WriteEnds P os (write_loop os m vs)
    loop e m [] q k = if_intro (WriteEnds P os) (is_zero m.state) _ _ (entered e m q) λ _.
        if_intro (WriteEnds P os) (m.waiting_writers == 2 ^ 32 - 1) _ _ (λ _. inr (refl, q))
          (λ _. tt)
    loop e m (v ∷ vs) q k = if_intro (WriteEnds P os) (is_zero m.state) _ _ (entered e m q) λ _.
        if_intro (WriteEnds P os) (m.waiting_writers == 2 ^ 32 - 1) _ _ (λ _. inr (refl, q))
          λ _.
            if_intro (WriteEnds P os) (is_ok v.result) _ _ (λ _. loop e (woken v.after) vs k.0 k.1)
              (λ f. inr (f, k.0))
