-- ===== src/Task/Dispatcher/Tests.antt =====
-- The dispatcher on a concrete run.
use rubyserver.Base.{Bool, ◌+◌, ℕ, inl, inr, ◌≡◌, refl, true, false, not, ◌==◌, List, [], ◌∷◌, ◌++◌}
use rubyserver.Task.Dispatcher.{
  Task, running, Dispatcher, has_expired, push, add_to_running, add_task, call, take, round_in,
  thread_main, stop_task, shutdown, Action, add, round, shut, act, run,
}
use rubyserver.Task.Dispatcher.Sequence.{
  tasks, all_brought, of_kind, times, run-InOrder, run-InNumber,
}

abbrev task : ℕ → ℕ → Task
task id expiration = record { id = id; expiration = expiration; stops = false }

abbrev started : Dispatcher
started = record { state = running; task_list = []; dispatcher_cycle = 0; taken = [] }

-- An event of the scheduler is pushed to the front; the second task expires before its round, the last
-- one comes after the end.
abbrev actions : List Action
actions =
    add false (task 1 0)
    ∷ add false (task 2 5)
    ∷ add true (task 4 0)
    ∷ round 3
    ∷ round 3
    ∷ shut
    ∷ round 6
    ∷ round 7
    ∷ add false (task 3 0)
    ∷ round 8
    ∷ []

calls :
    (run actions started).taken
    ≡ (task 4 0, true) ∷ (task 1 0, true) ∷ (task 2 5, false) ∷ (stop_task, true) ∷ []
unfolding run act add_task add_to_running push thread_main round_in take call has_expired shutdown
calls = refl

-- The tasks without those of the scheduler.
abbrev ordinary : Task → Bool
ordinary t = not (t.id == 4)

run-InOrder_example :
    of_kind ordinary (tasks (run actions started))
    ≡ of_kind ordinary (tasks started) ++ of_kind ordinary (all_brought actions started)
run-InOrder_example =
    run-InOrder ordinary actions started
      ((inl refl, (inl refl, (inr refl, (tt, (tt, (tt, (tt, (tt, (inl refl, (tt, tt)))))))))))

run-InNumber_example :
    times ordinary (tasks (run actions started))
    ≡ times ordinary (tasks started) + times ordinary (all_brought actions started)
run-InNumber_example = run-InNumber ordinary actions started
