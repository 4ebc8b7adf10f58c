-- ===== src/Queue/Tests.antt =====
-- Three steps of two threads.
use binglib.Base.{ℕ, ◌≡◌, refl, List, [], ◌∷◌, ◌++◌}
use binglib.Queue.{BlockingQueue, empty, push, pop}
use binglib.Queue.Order.{
  Event, pushes, pops, Runs, start, push_step, pop_step, to_list, pushed, popped, Runs-empty,
}

abbrev some_events : List (Event ℕ)
some_events = pushes 1 ∷ pushes 2 ∷ pops 1 ∷ []

abbrev one_left : BlockingQueue ℕ
one_left = record { queue = 2 ∷ [] }

some_events-Runs : Runs empty some_events one_left
unfolding empty push pop
some_events-Runs = pop_step 1 one_left (push_step 2 (push_step 1 start)) refl

Runs-empty_example : pushed some_events ≡ popped some_events ++ to_list one_left
Runs-empty_example = Runs-empty one_left some_events some_events-Runs
