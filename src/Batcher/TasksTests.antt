-- ===== src/Batcher/TasksTests.antt =====
-- Examples: tasks on the service of the other examples.
use tantylla.Base.{ℕ, ◌≡◌, refl, true, none, [], ◌∷◌, arith}
use tantylla.Batcher.Service.{
  new_service, flush, flush_items, flush_result, send_batches, group_items,
}
use tantylla.Batcher.Tests.{one_node, waiting}
use tantylla.Batcher.Tasks.{
  checking, pushing, by_ticker, sending, finished, nothing_delivered, System, Step, Reach,
  step_task, started,
}
use tantylla.Batcher.Tasks.Termination.{is_finished, task_after, task_after-finishes}
use tantylla.Batcher.Tasks.Room.{IsBounded, Reach-IsBounded}
use tantylla.Batcher.Tasks.Overtaken.{overtaken}

-- The node fails at every step of the task.
task_after-finishes_example :
    (n : ℕ) × (is_finished (task_after one_node (λ i. waiting) (λ i. 9) (checking "item") n) ≡ true)
task_after-finishes_example = task_after-finishes one_node (checking "item") (λ i. waiting) (λ i. 9)

-- Two calls of `add` have read the flag, and one of them has pushed its item.
abbrev entered : System one_node
entered = record (started one_node new_service 0) { tasks = checking "item" ∷ checking "?" ∷ [] }

abbrev one_pushed : System one_node
one_pushed = record entered {
  service = record new_service { buffer = "item" ∷ [] };
  tasks = finished none ∷ pushing "?" ∷ [];
  pushed = "item" ∷ [];
}

one_pushed-Reach : Reach one_node (started one_node new_service 0) one_pushed
unfolding step_task new_service
one_pushed-Reach =
    Reach.next
      (Reach.next
        (Reach.next (Reach.next (Reach.next Reach.here (Step.adds "item")) (Step.adds "?"))
          (Step.runs (checking "item" ∷ []) [] (checking "?") refl))
        (Step.runs [] (pushing "?" ∷ []) (checking "item") refl))
      (Step.runs [] (pushing "?" ∷ []) (pushing "item") refl)

Reach-IsBounded_example : IsBounded one_node one_pushed
unfolding new_service
Reach-IsBounded_example = Reach-IsBounded one_node new_service 0 (omega arith) one_pushed-Reach

-- The item "item" has been taken, and the flush of "?" has returned before it is sent.
overtaken_example :
    (y : System one_node) × Reach one_node (started one_node new_service 0) y
    × (y.tasks
        ≡ finished none
          ∷ sending by_ticker (group_items one_node ("item" ∷ []) []) nothing_delivered
          ∷ finished none
          ∷ finished none
          ∷ [])
    × (y.world_state ≡ 0)
unfolding new_service flush flush_items flush_result send_batches group_items
overtaken_example = overtaken one_node new_service refl (omega arith) "item" "?" 0
