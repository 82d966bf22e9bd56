-- ===== src/Sync/LockTests.antt =====
-- Concrete runs of the wait group, the event and the read-write lock.
use coter.Base.{ℕ, List, [], ◌∷◌, pos}
use coter.Sync.WaitGroup
use coter.Sync.WaitGroup.{WaitGroup}
use coter.Sync.Event
use coter.Sync.Event.{Event}
use coter.Sync.RwLock
use coter.Sync.RwLock.{RwLock}

abbrev tasks : ℕ → WaitGroup
tasks n = record { counter = n }

-- a wait at the deadline with a task left
abbrev late : List WaitGroup.Wake
late = record { now = 9; after = tasks 1 } ∷ []

abbrev idle : Event
idle = record { count = 0 }

abbrev woken_up : List Event.Wake
woken_up = record { now = 9; result = Event.ok; after = record { count = 1 } } ∷ []

abbrev free : RwLock
free = record { state = pos 0; waiting_writers = 0 }

abbrev read_once : RwLock
read_once = record { state = pos 1; waiting_writers = 1 }

abbrev released : List RwLock.Wake
released = record { result = RwLock.ok; after = free } ∷ []
