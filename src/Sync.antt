-- ===== src/Sync.antt =====
-- sync/SafeQueue.h: the class `SafeQueue`. The mutex makes each method one step. A `Dequeue` that
-- would wait is not a step: `none`.
use lightdb.Common.Int.{ℤ, pos, ◌+ℤ◌, ◌-ℤ◌, leb_ℤ, eq_ℤ}
use lightdb.Common.{
  ℕ, suc, Bool, Option, none, some, List, [], ◌∷◌, ◌++◌, length, length-append, if◌then◌else◌, ◌≡◌,
  refl, arith, false,
}

pub record SafeQueue {ℓ} (E : Type ℓ) : Type ℓ where
  pub queue : List E
  pub size : ℤ

less_one : (size : ℤ) (n : ℕ) → size ≡ pos (suc n) → size -ℤ pos 1 ≡ pos n
unfolding ◌-ℤ◌
less_one size n h = ground (arith, h)

module _ {ℓ} {E : Type ℓ} where
  unfoldable pub enqueue_step : SafeQueue E → E → SafeQueue E
  unfolding ◌+ℤ◌
  enqueue_step q e = record { queue = q.queue ++ e ∷ []; size = q.size +ℤ pos 1 }

  unfoldable pub dequeue_step : SafeQueue E → Option (E × SafeQueue E)
  unfolding ◌-ℤ◌
  dequeue_step q = if leb_ℤ q.size (pos 0) then none else (elim q.queue [
    | [] ↦ none
    | e ∷ es ↦ some (e, record { queue = es; size = q.size -ℤ pos 1 })
  ])

  unfoldable pub empty : SafeQueue E → Bool
  unfolding eq_ℤ
  empty q = eq_ℤ q.size (pos 0)

  unfoldable pub size_of : SafeQueue E → ℕ
  size_of q = length q.queue

  -- The counter is the length of the queue.
  abbrev pub IsCounted : SafeQueue E → Type 0
  IsCounted q = q.size ≡ pos (length q.queue)

  dequeue_step-counted :
      (xs : List E) (size : ℤ)
      → size ≡ pos (length xs)
      → dequeue_step (record { queue = xs; size = size })
        ≡ elim xs [ [] ↦ none | x ∷ ys ↦ some (x, record { queue = ys; size = pos (length ys) }) ]
  unfolding dequeue_step
  dequeue_step-counted [] size h = ground (arith, h)
  dequeue_step-counted (x ∷ ys) size h =
      let more : leb_ℤ size (pos 0) ≡ false = ground (arith, h) in
      let less : size -ℤ pos 1 ≡ pos (length ys) = less_one size (length ys) h in
      rw (more, less) refl

  -- A counted queue is one element longer after an `Enqueue`, and counted; a `Dequeue` waits exactly
  -- on an empty one, and else takes the first element and leaves the rest, counted.
  pub queue_lem :
      (q : SafeQueue E) (e : E)
      → IsCounted q
      → IsCounted (enqueue_step q e)
        × ((enqueue_step q e).queue ≡ q.queue ++ e ∷ [])
        × (dequeue_step q ≡ elim q.queue [
          | [] ↦ none
          | x ∷ xs ↦ some (x, record { queue = xs; size = pos (length xs) })
        ])
  unfolding enqueue_step dequeue_step
  queue_lem q e h = (
    ground (arith, h, length-append q.queue (e ∷ [])),
    refl,
    dequeue_step-counted q.queue q.size h,
  )
