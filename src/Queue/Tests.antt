-- ===== src/Queue/Tests.antt =====
-- Runs of the queues.
use tradeverse_api.Prelude.{ℕ, ◌≡◌, true, [], ◌∷◌, arith, refl, ◌==◌}
use tradeverse_api.Queue.Slot.{SlotQueue}
use tradeverse_api.Queue.Rich.{
  Comparable, RichQueue, Batch, new_rich_queue, enqueue, release, finished, drain,
}
use tradeverse_api.Queue.Rich
use tradeverse_api.Queue.Rich.Invariant.{IsSound}
use tradeverse_api.Queue.Rich.Traces.{Call, Calls, Calls-IsSound}
use tradeverse_api.Queue.Rich.Batches.{Drained, drain_all}

instance numbers : Comparable ℕ
numbers = record {
  equal = λ a b. a == b;
  equal_iff = λ a b. (λ e. ground arith, λ e. ground arith);
}

abbrev slots : SlotQueue
slots = record { slots = 4 ∷ 5 ∷ 6 ∷ []; notify = true }

abbrev queue : RichQueue ℕ
queue = record { slots = 4 ∷ 5 ∷ 6 ∷ []; notify = true; signed = 6 ∷ 5 ∷ 4 ∷ [] }

Calls-IsSound_example : IsSound (enqueue 4 (enqueue 4 (new_rich_queue {T = ℕ})))
Calls-IsSound_example =
    Calls-IsSound (Calls.snoc (Calls.snoc Calls.here (Call.enqueued 4)) (Call.enqueued 4))

two_out : (Rich.batch_dequeue 2 queue).0 ≡ Batch.batch (4 ∷ 5 ∷ [])
unfolding Rich.batch_dequeue
two_out = refl

drain_all_example : Drained 2 queue.slots (drain 4 2 queue)
drain_all_example = drain_all 4 2 queue (ground arith) (ground arith)
