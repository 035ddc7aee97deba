-- ===== src/Task/Tests.antt =====
-- The theorems on events at a concrete run.
use rubyserver.Base.{◌≤◌, ◌≡◌, refl, true, List, [], ◌∷◌, arith}
use rubyserver.Task.Scheduler.{
  Scheduler, insert, next_id, add_event, stop_event, take_at, pop_task, on_timeout, Action, add,
  timeout, act, run, erase,
}
use rubyserver.Task.Scheduler.Events.{times, started, dispatched-once, stop_event-never}

-- Two events; the first one runs after the second one, which is earlier.
abbrev actions : List Action
actions = add 900 ∷ add 500 ∷ timeout 1 ∷ timeout 0 ∷ timeout 0 ∷ []

dispatched-once_example : times 1 (run actions started).dispatched ≤ 1
dispatched-once_example = dispatched-once 1 actions (omega arith)

abbrev two_events : Scheduler
two_events = run (add 900 ∷ add 500 ∷ []) started

two_ids : two_events.last_event_id ≡ 2
unfolding run act add_event insert next_id
two_ids = refl

second_stops : (stop_event 2 two_events).0 ≡ true
unfolding stop_event run act add_event insert next_id
second_stops = refl

stop_event-never_example :
    times 2 (run actions (stop_event 2 two_events).1).dispatched ≡ times 2 two_events.dispatched
stop_event-never_example =
    stop_event-never 2 two_events actions (omega (arith, two_ids)) (omega (arith, two_ids))
      second_stops

-- The first timeout names the later event, and nothing happens.
run_order : (run actions started).dispatched ≡ 2 ∷ 1 ∷ []
unfolding run act add_event insert next_id on_timeout take_at pop_task erase
run_order = refl
