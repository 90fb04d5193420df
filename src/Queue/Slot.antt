-- ===== src/Queue/Slot.antt =====
-- `SlotQueue`, system/queue.go. `Consumer` is left out: its inner loop has no way out.
use tradeverse_api.Prelude.{
  ℕ, Bool, true, false, List, [], ◌∷◌, ◌++◌, ltb, ◌==◌, if◌then◌else◌, Option, none, some, length,
  take, drop,
}
pub mod Laws

pub record SlotQueue : Type 0 where
  pub slots : List ℕ
  pub notify : Bool

-- `NewSlotQueue`
abbrev pub new_slot_queue : SlotQueue
new_slot_queue = record { slots = []; notify = false }

pub enqueue : ℕ → SlotQueue → SlotQueue
enqueue item q = record { slots = q.slots ++ (item ∷ []); notify = true }

dequeue_from : List ℕ → SlotQueue → Option ℕ × SlotQueue
dequeue_from [] q = (none, q)
dequeue_from (x ∷ xs) q = (some x, record q { slots = xs })

-- `none` is the error "queue is empty".
pub dequeue : SlotQueue → Option ℕ × SlotQueue
unfolding dequeue_from
dequeue q = dequeue_from q.slots q

-- `none` is the error "wrong size". An `int` that is negative stands as 0.
pub batch_dequeue : ℕ → SlotQueue → Option (List ℕ) × SlotQueue
batch_dequeue size q =
    if size == 0
    then (none, q)
    else if ltb size (length q.slots)
    then (some (take size q.slots), record q { slots = drop size q.slots })
    else (some q.slots, record q { slots = [] })

abbrev pub size_of : SlotQueue → ℕ
size_of q = length q.slots

abbrev first_of_list : List ℕ → ℕ
first_of_list [] = 0
first_of_list (x ∷ xs) = x

abbrev last_from : ℕ → List ℕ → ℕ
last_from x [] = x
last_from x (y ∷ ys) = last_from y ys

-- `First`, `Last`: 0 for an empty queue.
abbrev pub first : SlotQueue → ℕ
first q = first_of_list q.slots

abbrev pub last : SlotQueue → ℕ
last q = last_from 0 q.slots
