-- ===== src/Queue.antt =====
-- src/incl/concurrentQueue.hpp: the FIFO that hands ad hoc work to the tiering thread. The mutex
-- makes each call one step; `std::queue` is a list, its front at the head.
pub mod Order
use autotier.Base.{◌++◌, List, [], ◌∷◌, Bool, true, false, Option, none, some}

pub record ConcurrentQueue {ℓ} (A : Type ℓ) : Type ℓ where
  pub queue : List A

module _ {ℓ} {A : Type ℓ} where
  unfoldable pub empty_queue : ConcurrentQueue A
  empty_queue = record { queue = [] }

  unfoldable pub is_empty : ConcurrentQueue A → Bool
  is_empty q = elim q.queue [ [] ↦ true | x ∷ xs ↦ false ]

  -- `push`, and `emplace` of an element built from its arguments.
  unfoldable pub push : A → ConcurrentQueue A → ConcurrentQueue A
  push val q = record { queue = q.queue ++ (val ∷ []) }

  -- `pop` on the empty queue has no defined result: `none`.
  unfoldable pub pop : ConcurrentQueue A → Option (A × ConcurrentQueue A)
  pop q = elim q.queue [ [] ↦ none | x ∷ xs ↦ some (x, record { queue = xs }) ]
