-- ===== src/Queue/Rich.antt =====
-- `RichQueue`, system/queue_enhance.go, with the map `signInLocks` of the items that are queued or
-- in work. The map is one for all queues; `signed` is the part that concerns this queue's items.
use tradeverse_api.Prelude.{
  ℕ, zero, suc, Bool, true, false, not, ◌&&◌, ◌||◌, List, [], ◌∷◌, ◌++◌, ltb, ◌==◌, ◌≡◌, ◌↔◌,
  if◌then◌else◌, Option, none, some, length, take, drop,
}
pub mod Invariant
pub mod Traces
pub mod Batches

-- Go's `comparable`
pub record Comparable (T : Type 0) : Type 0 where
  pub equal : T → T → Bool
  pub equal_iff : (a b : T) → (equal a b ≡ true) ↔ (a ≡ b)

pub record RichQueue (T : Type 0) : Type 0 where
  pub slots : List T
  pub notify : Bool
  pub signed : List T

-- What a batch can fail with: "wrong size", "empty length".
pub data Batch (T : Type 0) : Type 0 where
  wrong_size : Batch T
  empty_length : Batch T
  batch : List T → Batch T

module _ {T : Type 0} ⦃c : Comparable T⦄ where
  pub mem : T → List T → Bool
  mem x [] = false
  mem x (y ∷ ys) = c.equal x y || mem x ys

  pub delete : T → List T → List T
  delete x [] = []
  delete x (y ∷ ys) = let rest = delete x ys in if c.equal x y then rest else y ∷ rest

  -- `NewRichQueue`
  pub new_rich_queue : RichQueue T
  new_rich_queue = record { slots = []; notify = false; signed = [] }

  -- `LoadOrStore` and, if the item is new, `append`.
  admit : T → RichQueue T → RichQueue T
  admit x q =
      if mem x q.signed then q else record q { slots = q.slots ++ (x ∷ []); signed = x ∷ q.signed }

  pub enqueue : T → RichQueue T → RichQueue T
  enqueue x q =
      if mem x q.signed
      then q
      else record q { slots = q.slots ++ (x ∷ []); signed = x ∷ q.signed; notify = true }

  admit_all : List T → RichQueue T → RichQueue T
  unfolding admit
  admit_all [] q = q
  admit_all (x ∷ xs) q = admit_all xs (admit x q)

  pub batch_enqueue : List T → RichQueue T → RichQueue T
  unfolding admit_all
  batch_enqueue xs q = record (admit_all xs q) { notify = true }

  -- `EnqueueWithDelay` up to its goroutine, which calls `enqueue` after the delay.
  pub release : T → RichQueue T → RichQueue T
  release x q = record q { signed = delete x q.signed }

  -- The deferred `signInLocks.Delete(item)` of a handler's goroutine.
  pub finished : T → RichQueue T → RichQueue T
  finished x q = record q { signed = delete x q.signed }

  dequeue_from : List T → RichQueue T → Option T × RichQueue T
  dequeue_from [] q = (none, q)
  dequeue_from (x ∷ xs) q = (some x, record q { slots = xs })

  -- `none` is the error "queue is empty".
  pub dequeue : RichQueue T → Option T × RichQueue T
  unfolding dequeue_from
  dequeue q = dequeue_from q.slots q

  -- An `int` that is negative stands as 0.
  unfoldable pub batch_dequeue : ℕ → RichQueue T → Batch T × RichQueue T
  batch_dequeue size q =
      if size == 0
      then (Batch.wrong_size, q)
      else if length q.slots == 0
      then (Batch.empty_length, q)
      else if ltb size (length q.slots)
      then (Batch.batch (take size q.slots), record q { slots = drop size q.slots })
      else (Batch.batch q.slots, record q { slots = [] })

  -- `Size`
  abbrev pub size_of : RichQueue T → ℕ
  size_of q = length q.slots

  abbrev first_of_list : T → List T → T
  first_of_list x [] = x
  first_of_list x (y ∷ ys) = y

  abbrev last_from : T → List T → T
  last_from x [] = x
  last_from x (y ∷ ys) = last_from y ys

  -- `First`, `Last`, with the zero value of the items' type for an empty queue.
  abbrev pub first : T → RichQueue T → T
  first zero_value q = first_of_list zero_value q.slots

  abbrev pub last : T → RichQueue T → T
  last zero_value q = last_from zero_value q.slots

  finish_all : List T → RichQueue T → RichQueue T
  unfolding finished
  finish_all [] q = q
  finish_all (x ∷ xs) q = finish_all xs (finished x q)

  -- The inner loop of `ConsumerWithContext` with handlers that leave the queue alone: batches are
  -- taken until one fails, each is worked off before the next. The fuel bounds the rounds.
  pub drain : ℕ → ℕ → RichQueue T → Option (List (List T) × RichQueue T)
  unfolding batch_dequeue finish_all
  drain zero size q = none
  drain (suc fuel) size q =
      let (b, q') = batch_dequeue size q in
      elim b [
        | Batch.wrong_size ↦ some ([], q')
        | Batch.empty_length ↦ some ([], q')
        | Batch.batch xs ↦ elim (drain fuel size (finish_all xs q')) [
          | none ↦ none
          | some (bs, r) ↦ some (xs ∷ bs, r)
        ]
      ]
