-- ===== src/Sync/MsgQueue/Start.antt =====
-- What ct_msgqueue_init sets up.
use coter.Base.{
  ℕ, ◌*◌, ◌<◌, ◌≤◌, ◌≡◌, ◌⊎◌, refl, arith, true, false, some, Bytes, length, size_mod,
  if◌then◌else◌,
}
use coter.Container.Queue
use coter.Container.Queue.{Queue}
use coter.Container.Queue.Inv.{IsValid, init-IsValid}
use coter.Sync.MsgQueue.{MsgQueue, Code, ok, is_ok, init, is_empty, is_full, count}

pub code_of_is_ok : (code : Code) → is_ok code ≡ true → code ≡ ok
code_of_is_ok ok e = refl
code_of_is_ok _ e = cc

-- ct_msgqueue_init on storage for at least one element: the queue is then valid and empty, with room,
-- and the result is the first code other than 0 among those of the mutex and the two condition
-- variables, in that order; if there is none the result is 0, and the queue is open.
pub init-outcome :
    (self : MsgQueue) (buffer : Bytes) (byte max : ℕ) (mutex not_empty not_full : Code)
    → 0 < byte
    → 0 < max
    → max < size_mod
    → max * byte ≤ length buffer
    → let (code, m) = init self (some buffer) byte max mutex not_empty not_full in
      IsValid m.queue
      × (is_empty m ≡ true)
      × (is_full m ≡ false)
      × (count m ≡ 0)
      × (code ≡ (if is_ok mutex then (if is_ok not_empty then not_full else not_empty) else mutex))
      × ((is_ok code ≡ false) ⊎ ((code ≡ ok) × (m.is_shut ≡ false)))
unfolding init Queue.init
init-outcome self buffer byte max mutex not_empty not_full p q r e =
    let started = init-IsValid self.queue buffer byte max p r e in
    let zero_code = code_of_is_ok not_full in
    (
      ground (arith, started),
      ground arith,
      ground arith,
      ground arith,
      ground (arith, zero_code),
      ground (arith, zero_code),
    )
