-- ===== src/Queue/Rich/Batches.antt =====
-- The batches of a `RichQueue` and the inner loop of its consumer, system/queue_enhance.go.
use tradeverse_api.Prelude.{
  ℕ, zero, suc, ◌≤◌, ◌<◌, List, [], ◌∷◌, ◌++◌, length, ◌≡◌, ◌≢◌, refl, ap, Option, none, some, take,
  drop, arith, take-append-drop, length-take, length-append,
}
use mathlib.Core.List.{append-nil}
use tradeverse_api.Queue.Rich.{
  Comparable, RichQueue, Batch, finished, finish_all, batch_dequeue, drain,
}

length_pos : {T : Type 0} → (xs : List T) → length xs ≢ 0 → 0 < length xs
length_pos xs h = omega arith

module _ {T : Type 0} ⦃c : Comparable T⦄ where
  -- A batch is the non-empty front of the queue, of at most the size asked for; the rest stays, and
  -- a batch shorter than that leaves nothing behind.
  pub batch_dequeue_front :
      (size : ℕ) (q : RichQueue T) (xs : List T)
      → (batch_dequeue size q).0 ≡ Batch.batch xs
      → (xs ++ (batch_dequeue size q).1.slots ≡ q.slots)
        × (0 < length xs)
        × (length xs ≤ size)
        × (length xs < size → (batch_dequeue size q).1.slots ≡ [])
  unfolding batch_dequeue
  batch_dequeue_front size q xs h =
      ground (arith, take-append-drop size q.slots, length-take size q.slots, append-nil q.slots)

  finish_all_slots : (xs : List T) (q : RichQueue T) → (finish_all xs q).slots ≡ q.slots
  unfolding finish_all finished
  finish_all_slots [] q = refl
  finish_all_slots (x ∷ xs) q = finish_all_slots xs (finished x q)

  abbrev pub joined : List (List T) → List T
  joined [] = []
  joined (xs ∷ bs) = xs ++ joined bs

  abbrev pub Within : ℕ → List (List T) → Type 0
  Within size [] = Unit
  Within size (xs ∷ bs) = (length xs ≤ size) × Within size bs

  -- The consumer's round has ended with batches that are the queue's items in their order.
  abbrev pub Drained : ℕ → List T → Option (List (List T) × RichQueue T) → Type 0
  Drained size xs none = ⊥
  Drained size xs (some (bs, r)) = (joined bs ≡ xs) × Within size bs × (r.slots ≡ [])

  length-drop : (n : ℕ) (xs : List T) → 0 < n → length xs ≢ 0 → length (drop n xs) < length xs
  length-drop n xs p ne = omega (
    arith,
    length-append (take n xs) (drop n xs),
    length-take n xs,
    ap length (take-append-drop n xs),
  )

  -- With a positive batch size and more rounds than the queue has items, the consumer's inner loop
  -- ends, with an empty queue: its batches, each of at most the batch size, are the queue's items
  -- in the order of the queue.
  pub drain_all :
      (fuel size : ℕ) (q : RichQueue T)
      → 0 < size
      → length q.slots < fuel
      → Drained size q.slots (drain fuel size q)
  unfolding drain
  drain_all zero size q p f = ground arith
  drain_all (suc fuel) size q p f =
      let rest = record q { slots = drop size q.slots } in
      let q1 = finish_all (take size q.slots) rest in
      let q2 = finish_all q.slots (record q { slots = [] }) in
      ground (
        arith,
        drain_all fuel size q1 p,
        drain_all fuel size q2 p,
        finish_all_slots (take size q.slots) rest,
        finish_all_slots q.slots (record q { slots = [] }),
        length-drop size q.slots p,
        length-take size q.slots,
        take-append-drop size q.slots,
        append-nil q.slots,
      )
