-- ===== src/Queue/Rich/Traces.antt =====
-- The operations of a `RichQueue` in any order, system/queue_enhance.go.
use tradeverse_api.Prelude.{ℕ, false, List, [], ◌∷◌, ◌++◌, ◌≡◌, arith, refl, Bool-cases, inl, inr}
use tradeverse_api.Queue.Rich.{
  Comparable, RichQueue, mem, delete, new_rich_queue, enqueue, batch_enqueue, release, finished,
  dequeue, batch_dequeue,
}
use tradeverse_api.Queue.Rich.Invariant.{
  IsSound, enqueue-IsSound, batch_enqueue-IsSound, dequeue-IsSound, batch_dequeue-IsSound,
  unsign-IsSound,
}

module _ {T : Type 0} ⦃c : Comparable T⦄ where
  -- A call of a method. The lock of an item is removed only while the item is not queued.
  pub data Call (q : RichQueue T) : RichQueue T → Type 0 where
    enqueued : (x : T) → Call q (enqueue x q)
    batch_enqueued : (xs : List T) → Call q (batch_enqueue xs q)
    dequeued : Call q (dequeue q).1
    batch_dequeued : (size : ℕ) → Call q (batch_dequeue size q).1
    released : (x : T) → mem x q.slots ≡ false → Call q (release x q)
    worked_off : (x : T) → mem x q.slots ≡ false → Call q (finished x q)

  pub data Calls (q : RichQueue T) : RichQueue T → Type 0 where
    here : Calls q q
    snoc : {r s : RichQueue T} → Calls q r → Call r s → Calls q s

  Call-IsSound : {q r : RichQueue T} → Call q r → IsSound q → IsSound r
  unfolding release finished
  Call-IsSound {q = q} (enqueued x) h = enqueue-IsSound x q h
  Call-IsSound {q = q} (batch_enqueued xs) h = batch_enqueue-IsSound xs q h
  Call-IsSound {q = q} dequeued h = dequeue-IsSound q h
  Call-IsSound {q = q} (batch_dequeued n) h = batch_dequeue-IsSound n q h
  Call-IsSound {q = q} (released x n) h = unsign-IsSound x q n h
  Call-IsSound {q = q} (worked_off x n) h = unsign-IsSound x q n h

  -- After any calls on a new queue no item is queued twice and every queued item is in the map, as
  -- long as `release` and `finished` are called only for items that are not queued then.
  pub Calls-IsSound : {q : RichQueue T} → Calls new_rich_queue q → IsSound q
  unfolding new_rich_queue
  Calls-IsSound here = record { no_repeat = tt; all_signed = tt }
  Calls-IsSound (snoc r s) = Call-IsSound s (Calls-IsSound r)

  mem-delete_self : (x : T) (xs : List T) → mem x (delete x xs) ≡ false
  unfolding mem delete
  mem-delete_self x [] = refl
  mem-delete_self x (y ∷ ys) = elim (Bool-cases (c.equal x y)) [
    | inl e ↦ rw e (mem-delete_self x ys)
    | inr e ↦ ground (arith, mem-delete_self x ys)
  ]

  -- The limit of that: if an item is released and comes back before the handler that released it is
  -- finished, then finishing removes the new lock, and the item can be queued a second time. So it
  -- is with every queue and every item.
  pub requeue_duplicates :
      (x : T) (q : RichQueue T)
      → (enqueue x (finished x (enqueue x (release x q)))).slots ≡ q.slots ++ (x ∷ []) ++ (x ∷ [])
  unfolding enqueue release finished
  requeue_duplicates x q =
      ground (arith, mem-delete_self x q.signed, mem-delete_self x (x ∷ delete x q.signed))
