-- ===== src/Sync/MsgQueue/Trace.antt =====
-- Any interleaving of the steps that threads make on one message queue.
use coter.Base.{
  ℕ, ◌≤◌, ◌≡◌, refl, sym, ap, ap₂, subst, ◌∙◌, arith, true, Option, none, some, List, [], ◌∷◌, ◌++◌,
  append-nil, append_assoc, Bytes, length, take,
}
use coter.Container.Fifo
use coter.Container.Queue
use coter.Container.Queue.{Queue}
use coter.Container.Queue.Inv.{
  IsValid, enqueue-IsValid, dequeue-IsValid, enqueue_same, dequeue_same,
}
use coter.Container.Queue.Refine.{contents, enqueue_refines, dequeue_refines, length-contents}
use coter.Sync.MsgQueue.{MsgQueue, Code, ok, epipe, try_push, try_pop, close}

-- The steps that change the shared state. A blocking call acts in one such step too, the one after
-- its last wait.
pub data Step : Type 0 where
  push : Bytes → Step
  pop shut : Step

-- the items that went in, those that came out, both in order, and the state after the steps
pub record History : Type 0 where
  pub entered : List Bytes
  pub left : List Bytes
  pub final : MsgQueue

-- the item of a push, cut to the size that is copied, if it succeeded
abbrev pub entry : Code → ℕ → Bytes → List Bytes
entry ok byte item = take byte item ∷ []
entry _ byte item = []

abbrev pub exit : Option Bytes → List Bytes
exit none = []
exit (some x) = x ∷ []

unfoldable pub run : MsgQueue → List Step → History
run m [] = record { entered = []; left = []; final = m }
run m (push item ∷ steps) =
    let (code, _, m') = try_push m (some item) in
    let h = run m' steps in record h { entered = entry code m.queue.byte item ++ h.entered }
run m (pop ∷ steps) =
    let (code, out, _, m') = try_pop m true in
    let h = run m' steps in record h { left = exit out ++ h.left }
run m (shut ∷ steps) = run (close m).1 steps

-- every item that is pushed has the size that the queue copies
abbrev pub AllFit : ℕ → List Step → Type 0
AllFit byte [] = Unit
AllFit byte (push item ∷ steps) = (byte ≤ length item) × AllFit byte steps
AllFit byte (_ ∷ steps) = AllFit byte steps

exit-pop : (xs : List Bytes) → xs ≡ exit (Fifo.pop xs).1 ++ (Fifo.pop xs).2
unfolding Fifo.pop
exit-pop [] = refl
exit-pop (x ∷ xs) = refl

-- what a step keeps
pub record Kept (m m' : MsgQueue) : Type 0 where
  pub valid : IsValid m'.queue
  pub byte_same : m'.queue.byte ≡ m.queue.byte
  pub max_same : m'.queue.max ≡ m.queue.max

module _ (m : MsgQueue) (v : IsValid m.queue) where
  pub push_step :
      (item : Bytes)
      → m.queue.byte ≤ length item
      → let (code, _, m') = try_push m (some item) in
        Kept m m' × (contents m.queue ++ entry code m.queue.byte item ≡ contents m'.queue)
  unfolding try_push Fifo.push
  push_step item h =
      let same = enqueue_same m.queue (some item) in
      let after = enqueue_refines m.queue item v h in
      (
        record {
          valid = ground (arith, enqueue-IsValid m.queue (some item) v);
          byte_same = ground (arith, same);
          max_same = ground (arith, same);
        },
        ground (arith, after, length-contents m.queue, append-nil (contents m.queue)),
      )

  pub pop_step :
      let (_, out, _, m') = try_pop m true in
      Kept m m' × (contents m.queue ≡ exit out ++ contents m'.queue)
  unfolding try_pop
  pop_step =
      let same = dequeue_same m.queue true in
      let after = dequeue_refines m.queue v in
      let taken : contents m.queue
          ≡ exit (Queue.dequeue m.queue true).1 ++ contents (Queue.dequeue m.queue true).2 =
        exit-pop (contents m.queue)
        ∙ ap₂ (λ o xs. exit o ++ xs) (sym (ap (λ t. t.1) after)) (sym (ap (λ t. t.2) after)) in
      (
        record {
          valid = ground (arith, dequeue-IsValid m.queue true v);
          byte_same = ground (arith, same);
          max_same = ground (arith, same);
        },
        ground (arith, taken),
      )

pub close-queue : (m : MsgQueue) → (close m).1.queue ≡ m.queue
unfolding close
close-queue m = ground arith

-- Whatever the interleaving, the items come out in the order in which they went in, none twice and
-- none lost: what was in the queue and what entered, in order, is what left followed by what is still
-- there. The queue stays valid, never holds more than its maximum.
pub run_fifo :
    (m : MsgQueue) (steps : List Step)
    → IsValid m.queue
    → AllFit m.queue.byte steps
    → let h = run m steps in
      (contents m.queue ++ h.entered ≡ h.left ++ contents h.final.queue)
      × IsValid h.final.queue
      × (length (contents h.final.queue) ≤ m.queue.max)
unfolding run
run_fifo m [] v f =
    (append-nil (contents m.queue), v, omega (arith, length-contents m.queue, v.size_in))
run_fifo m (push item ∷ steps) v f =
    let (code, _, m') = try_push m (some item) in
    let (k, moved) = push_step m v item f.0 in
    let (fifo, valid, bound) =
      run_fifo m' steps k.valid (subst (λ b. AllFit b steps) (sym k.byte_same) f.1) in
    (
      sym (append_assoc (contents m.queue) (entry code m.queue.byte item) (run m' steps).entered)
          ∙ ap (λ xs. xs ++ (run m' steps).entered) moved
          ∙ fifo,
      valid,
      omega (arith, k.max_same, bound),
    )
run_fifo m (pop ∷ steps) v f =
    let (_, out, _, m') = try_pop m true in
    let (k, moved) = pop_step m v in
    let (fifo, valid, bound) =
      run_fifo m' steps k.valid (subst (λ b. AllFit b steps) (sym k.byte_same) f) in
    (
      ap (λ xs. xs ++ (run m' steps).entered) moved
          ∙ append_assoc (exit out) (contents m'.queue) (run m' steps).entered
          ∙ ap (◌++◌ (exit out)) fifo
          ∙ sym (append_assoc (exit out) (run m' steps).left (contents (run m' steps).final.queue)),
      valid,
      omega (arith, k.max_same, bound),
    )
run_fifo m (shut ∷ steps) v f =
    let m' = (close m).1 in
    let same : m'.queue ≡ m.queue = close-queue m in
    let (fifo, valid, bound) = run_fifo m' steps (rw same v) (rw same f) in
    (rw same at fifo, valid, rw same at bound)

-- From a shut queue on nothing enters, nothing leaves and the state never changes, whatever the steps:
-- what was still in the queue when it was shut can no longer be taken out.
pub run_shut :
    (m : MsgQueue) (steps : List Step)
    → m.is_shut ≡ true
    → run m steps ≡ record { entered = []; left = []; final = m }
unfolding run try_push try_pop close
run_shut m [] e = refl
run_shut m (push item ∷ steps) e =
    let refused : try_push m (some item) ≡ (epipe, [], m) = ground arith in
    rw (refused, run_shut m steps e) refl
run_shut m (pop ∷ steps) e =
    let refused : try_pop m true ≡ (epipe, none, [], m) = ground arith in
    rw (refused, run_shut m steps e) refl
run_shut m (shut ∷ steps) e =
    let ignored : close m ≡ ([], m) = ground arith in rw (ignored, run_shut m steps e) refl
