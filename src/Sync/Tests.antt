-- ===== src/Sync/Tests.antt =====
-- Concrete runs of the message queue.
use coter.Base.{
  ◌≤◌, ◌≡◌, ◌≢◌, inl, refl, arith, true, false, some, List, [], ◌∷◌, ◌++◌, pos, Bytes, length,
}
use coter.Container.Queue.Inv.{IsValid}
use coter.Container.Queue.Refine.{contents}
use coter.Sync.MsgQueue.{MsgQueue, ok, Wake, Pushed, Popped, push_for, pop_for}
use coter.Sync.MsgQueue.Trace.{Step, run, run_fifo}
use coter.Sync.MsgQueue.Wait.{PushEnds, PopEnds, push_for_lem, pop_for_lem, timed_return}

-- one-byte items, storage for two
abbrev one_item : MsgQueue
one_item = record {
  queue = record { all = 4 ∷ 0 ∷ []; byte = 1; max = 2; head = 0; tail = 1; size = 1 };
  is_shut = false;
}

abbrev full_queue : MsgQueue
full_queue = record {
  queue = record { all = 4 ∷ 5 ∷ []; byte = 1; max = 2; head = 0; tail = 0; size = 2 };
  is_shut = false;
}

abbrev empty_queue : MsgQueue
empty_queue = record {
  queue = record { all = 4 ∷ 5 ∷ []; byte = 1; max = 2; head = 1; tail = 1; size = 0 };
  is_shut = false;
}

abbrev item : Bytes
item = 9 ∷ []

one_item-IsValid : IsValid one_item.queue
one_item-IsValid = omega arith

abbrev steps : List Step
steps =
    Step.push item
    ∷ Step.push item
    ∷ Step.pop
    ∷ Step.pop
    ∷ Step.push item
    ∷ Step.shut
    ∷ Step.pop
    ∷ []

run_fifo_example :
    let h = run one_item steps in
    (contents one_item.queue ++ h.entered ≡ h.left ++ contents h.final.queue)
    × IsValid h.final.queue
    × (length (contents h.final.queue) ≤ one_item.queue.max)
run_fifo_example =
    run_fifo one_item steps one_item-IsValid (omega arith, (omega arith, (omega arith, tt)))

-- a wait that returns 0 and leaves room
abbrev room_made : List Wake
room_made = record { now = 3; result = ok; after = one_item } ∷ []

push_for_lem_example :
    PushEnds (λ m. IsValid m.queue) item (push_for full_queue (some item) 0 (pos 5) room_made)
push_for_lem_example =
    push_for_lem (λ m. IsValid m.queue) full_queue item 0 (pos 5) room_made (omega arith)
      (one_item-IsValid, tt)

-- a wait after which the queue is still full, at the deadline
abbrev too_late : List Wake
too_late = record { now = 5; result = ok; after = full_queue } ∷ []

timed_return_example :
    (push_for full_queue (some item) 0 (pos 5) too_late ≢ Pushed.blocked)
    × (pop_for full_queue true 0 (pos 5) too_late ≢ Popped.blocked)
timed_return_example = timed_return full_queue item 0 4 too_late (inl (omega arith)) (refl, tt)

pop_for_lem_example : PopEnds (λ m. IsValid m.queue) (pop_for empty_queue true 0 (pos 5) room_made)
pop_for_lem_example =
    pop_for_lem (λ m. IsValid m.queue) empty_queue 0 (pos 5) room_made (omega arith)
      (one_item-IsValid, tt)
