-- ===== src/Queue.antt =====
-- src/utility/blocking_queue.hpp: the queue through which the wallet state hands updates to the
-- user interface. The deque is a list, its front first. Each operation holds the mutex while it
-- works, so an execution of several threads is a sequence of operations.
pub mod Order
mod Tests
use binglib.Base.{Option, none, some, List, [], ◌∷◌}

pub record BlockingQueue {ℓ} (A : Type ℓ) : Type ℓ where
  pub queue : List A

module _ {ℓ} {A : Type ℓ} where
  unfoldable pub empty : BlockingQueue A
  empty = record { queue = [] }

  unfoldable pub push : A → BlockingQueue A → BlockingQueue A
  push value q = record { queue = value ∷ q.queue }

  -- back() and pop_back(): the last entry, and the list without it.
  pub split_back : A → List A → A × List A
  split_back x [] = (x, [])
  split_back x (y ∷ ys) = ((split_back y ys).0, x ∷ (split_back y ys).1)

  pop_list : List A → Option (A × BlockingQueue A)
  pop_list [] = none
  pop_list (x ∷ xs) = some ((split_back x xs).0, record { queue = (split_back x xs).1 })

  -- `none` while the condition of the wait does not hold: the caller is blocked.
  unfoldable pub pop : BlockingQueue A → Option (A × BlockingQueue A)
  unfolding pop_list split_back
  pop q = pop_list q.queue
