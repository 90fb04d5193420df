-- ===== src/Queue.antt =====
-- The work queues of system/queue.go (`SlotQueue`) and system/queue_enhance.go (`RichQueue`). A
-- method that holds the queue's mutex is one function from the queue to the queue. The channel
-- `notify` has room for one token, so it is a Boolean. Goroutines are separate calls: the re-entry
-- of `EnqueueWithDelay` is a later `enqueue`, and the deferred `Delete` of a handler is `finished`.
pub mod Slot
pub mod Rich
mod Tests
