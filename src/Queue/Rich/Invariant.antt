-- ===== src/Queue/Rich/Invariant.antt =====
-- When a `RichQueue` is sound: its items and the map of the items in work, system/queue_enhance.go.
use tradeverse_api.Prelude.{
  ℕ, zero, suc, true, false, ◌||◌, List, [], ◌∷◌, ◌++◌, ◌≡◌, inl, inr, drop, arith, Bool-cases,
}
use tradeverse_api.Queue.Rich.{
  Comparable, RichQueue, mem, delete, admit, enqueue, admit_all, batch_enqueue, dequeue,
  dequeue_from, batch_dequeue,
}

module _ {T : Type 0} ⦃c : Comparable T⦄ where
  abbrev pub NoRepeat : List T → Type 0
  NoRepeat [] = Unit
  NoRepeat (x ∷ xs) = (mem x xs ≡ false) × NoRepeat xs

  abbrev pub AllSigned : List T → List T → Type 0
  AllSigned [] signed = Unit
  AllSigned (x ∷ xs) signed = (mem x signed ≡ true) × AllSigned xs signed

  -- No item is queued twice, and every queued item is in the map.
  pub record IsSound (q : RichQueue T) : Type 0 where
    pub no_repeat : NoRepeat q.slots
    pub all_signed : AllSigned q.slots q.signed

  mem-append : (x y : T) (xs : List T) → mem x (xs ++ (y ∷ [])) ≡ (mem x xs || c.equal x y)
  unfolding mem
  mem-append x y [] = ground arith
  mem-append x y (z ∷ zs) = ground (arith, mem-append x y zs)

  -- An item that is in the map and not among `xs` differs from each of `xs`.
  mem_signed :
      (x : T) (y : T) (signed : List T)
      → mem x signed ≡ true
      → mem y signed ≡ false
      → c.equal x y ≡ false
  unfolding mem
  mem_signed x y signed hx hy = elim (Bool-cases (c.equal x y)) [
    | inl e ↦ ground (arith, (c.equal_iff x y).0 e)
    | inr e ↦ e
  ]

  NoRepeat-append :
      (x : T) (xs signed : List T)
      → NoRepeat xs
      → AllSigned xs signed
      → mem x signed ≡ false
      → NoRepeat (xs ++ (x ∷ []))
  unfolding mem
  NoRepeat-append x [] signed h a n = ground arith
  NoRepeat-append x (y ∷ ys) signed h a n =
      ground (
        arith,
        NoRepeat-append x ys signed h.1 a.1 n,
        mem-append y x ys,
        mem_signed y x signed a.0 n,
      )

  AllSigned-append :
      (x : T) (xs signed : List T) → AllSigned xs signed → AllSigned (xs ++ (x ∷ [])) (x ∷ signed)
  unfolding mem
  AllSigned-append x [] signed a = ground (arith, c.equal_iff x x)
  AllSigned-append x (y ∷ ys) signed a = ground (arith, AllSigned-append x ys signed a.1)

  NoRepeat-drop : (n : ℕ) (xs : List T) → NoRepeat xs → NoRepeat (drop n xs)
  NoRepeat-drop zero xs h = h
  NoRepeat-drop (suc n) [] h = h
  NoRepeat-drop (suc n) (x ∷ xs) h = NoRepeat-drop n xs h.1

  AllSigned-drop : (n : ℕ) (xs signed : List T) → AllSigned xs signed → AllSigned (drop n xs) signed
  AllSigned-drop zero xs signed h = h
  AllSigned-drop (suc n) [] signed h = h
  AllSigned-drop (suc n) (x ∷ xs) signed h = AllSigned-drop n xs signed h.1

  mem-delete :
      (x y : T) (ys : List T) → c.equal y x ≡ false → mem y ys ≡ true → mem y (delete x ys) ≡ true
  unfolding mem delete
  mem-delete x y [] ne m = m
  mem-delete x y (z ∷ zs) ne m = elim (Bool-cases (c.equal x z)) [
    | inl e ↦ ground (arith, mem-delete x y zs ne, (c.equal_iff x z).0 e)
    | inr e ↦ ground (arith, mem-delete x y zs ne)
  ]

  AllSigned-delete :
      (x : T) (xs signed : List T)
      → mem x xs ≡ false
      → AllSigned xs signed
      → AllSigned xs (delete x signed)
  unfolding mem
  AllSigned-delete x [] signed n a = tt
  AllSigned-delete x (y ∷ ys) signed n a =
      ground (
        arith,
        AllSigned-delete x ys signed,
        mem-delete x y signed,
        c.equal_iff x y,
        c.equal_iff y x,
      )

  admit-IsSound : (x : T) (q : RichQueue T) → IsSound q → IsSound (admit x q)
  unfolding admit
  admit-IsSound x q h = ground (
    arith,
    NoRepeat-append x q.slots q.signed h.no_repeat h.all_signed,
    AllSigned-append x q.slots q.signed h.all_signed,
  )

  admit_all-IsSound : (xs : List T) (q : RichQueue T) → IsSound q → IsSound (admit_all xs q)
  unfolding admit_all
  admit_all-IsSound [] q h = h
  admit_all-IsSound (x ∷ xs) q h = admit_all-IsSound xs (admit x q) (admit-IsSound x q h)

  dequeue_from-IsSound :
      (xs : List T) (q : RichQueue T)
      → NoRepeat xs
      → AllSigned xs q.signed
      → IsSound q
      → IsSound (dequeue_from xs q).1
  unfolding dequeue_from
  dequeue_from-IsSound [] q n a h = h
  dequeue_from-IsSound (x ∷ xs) q n a h = ground arith

  pub enqueue-IsSound : (x : T) (q : RichQueue T) → IsSound q → IsSound (enqueue x q)
  unfolding enqueue
  enqueue-IsSound x q h = ground (
    arith,
    NoRepeat-append x q.slots q.signed h.no_repeat h.all_signed,
    AllSigned-append x q.slots q.signed h.all_signed,
  )

  pub batch_enqueue-IsSound :
      (xs : List T) (q : RichQueue T) → IsSound q → IsSound (batch_enqueue xs q)
  unfolding batch_enqueue
  batch_enqueue-IsSound xs q h =
      let s = admit_all-IsSound xs q h in
      record { no_repeat = s.no_repeat; all_signed = s.all_signed }

  pub dequeue-IsSound : (q : RichQueue T) → IsSound q → IsSound (dequeue q).1
  unfolding dequeue
  dequeue-IsSound q h = dequeue_from-IsSound q.slots q h.no_repeat h.all_signed h

  pub batch_dequeue-IsSound : (n : ℕ) (q : RichQueue T) → IsSound q → IsSound (batch_dequeue n q).1
  unfolding batch_dequeue
  batch_dequeue-IsSound n q h =
      ground
        (arith, NoRepeat-drop n q.slots h.no_repeat, AllSigned-drop n q.slots q.signed h.all_signed)

  pub unsign-IsSound :
      (x : T) (q : RichQueue T)
      → mem x q.slots ≡ false
      → IsSound q
      → IsSound (record q { signed = delete x q.signed })
  unsign-IsSound x q n h = record {
    no_repeat = h.no_repeat;
    all_signed = AllSigned-delete x q.slots q.signed n h.all_signed;
  }
