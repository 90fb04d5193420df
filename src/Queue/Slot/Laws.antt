-- ===== src/Queue/Slot/Laws.antt =====
-- The order in which a `SlotQueue` hands out its items, system/queue.go.
use tradeverse_api.Prelude.{
  ℕ, zero, suc, List, [], ◌∷◌, ◌++◌, ◌≡◌, ◌≤◌, Option, none, some, length, arith, take-append-drop,
  length-take, refl,
}
use mathlib.Core.List.{append-nil, append_assoc}
use tradeverse_api.Queue.Slot.{SlotQueue, enqueue, dequeue, dequeue_from, batch_dequeue}

-- What an observed batch says of the queue before and after it.
abbrev pub Front : ℕ → SlotQueue → Option (List ℕ) × SlotQueue → Type 0
Front size q (none, r) = (size ≡ 0) × (r ≡ q)
Front size q (some xs, r) = (xs ++ r.slots ≡ q.slots) × (length xs ≤ size) × (r.notify ≡ q.notify)

-- A batch fails exactly for the size 0, and then the queue is as it was; otherwise it is the front
-- of the queue, of at most the size asked for, and the rest stays in the queue.
pub batch_dequeue-Front : (size : ℕ) (q : SlotQueue) → Front size q (batch_dequeue size q)
unfolding batch_dequeue
batch_dequeue-Front size q =
    ground (arith, take-append-drop size q.slots, length-take size q.slots, append-nil q.slots)

abbrev pub enqueue_all : List ℕ → SlotQueue → SlotQueue
enqueue_all [] q = q
enqueue_all (x ∷ xs) q = enqueue_all xs (enqueue x q)

abbrev pub taken_then : Option ℕ → List ℕ → List ℕ
taken_then none xs = []
taken_then (some x) xs = x ∷ xs

abbrev pub dequeue_all : ℕ → SlotQueue → List ℕ
dequeue_all zero q = []
dequeue_all (suc n) q = taken_then (dequeue q).0 (dequeue_all n (dequeue q).1)

enqueue_all_slots : (xs : List ℕ) (q : SlotQueue) → (enqueue_all xs q).slots ≡ q.slots ++ xs
unfolding enqueue
enqueue_all_slots [] q = ground (arith, append-nil q.slots)
enqueue_all_slots (x ∷ xs) q =
    ground (arith, enqueue_all_slots xs (enqueue x q), append_assoc q.slots (x ∷ []) xs)

dequeue_all_slots : (xs : List ℕ) (q : SlotQueue) → q.slots ≡ xs → dequeue_all (length xs) q ≡ xs
unfolding dequeue dequeue_from
dequeue_all_slots [] q e = refl
dequeue_all_slots (x ∷ xs) q e = ground (arith, dequeue_all_slots xs (record q { slots = xs }))

-- Items that are put in one after the other leave in that order, after the items that were there
-- before.
pub first_in_first_out :
    (xs : List ℕ) (q : SlotQueue)
    → dequeue_all (length (q.slots ++ xs)) (enqueue_all xs q) ≡ q.slots ++ xs
first_in_first_out xs q =
    dequeue_all_slots (q.slots ++ xs) (enqueue_all xs q) (enqueue_all_slots xs q)
