-- ===== src/Task/Dispatcher.antt =====
-- Dispatcher and Task of src/tasks.h and src/tasks.cpp. Each operation holds the task lock, so runs are
-- sequences of operations; what a task does when it is called is not looked into, apart from the one
-- that shutdown adds.
pub mod Sequence
mod Tests
use rubyserver.Base.{
  ℕ, ◌+◌, ◌%◌, ◌^◌, Bool, true, false, not, ◌&&◌, List, [], ◌∷◌, ◌++◌, ltb, ◌==◌, if◌then◌else◌,
}

-- `stops` is the task of shutdown; an expiration of 0 is SYSTEM_TIME_ZERO.
pub record Task : Type 0 where
  pub id : ℕ
  pub expiration : ℕ
  pub stops : Bool

-- The states of ThreadHolder.
pub data ThreadState : Type 0 where
  running closing terminated : ThreadState

-- `taken` are the tasks taken off the list so far, the first one first, and whether they were called.
pub record Dispatcher : Type 0 where
  pub state : ThreadState
  pub task_list : List Task
  pub dispatcher_cycle : ℕ
  pub taken : List (Task × Bool)

unfoldable pub has_expired : ℕ → Task → Bool
has_expired now task = if task.expiration == 0 then false else ltb task.expiration now

-- addTask: only a dispatcher that runs takes the task.
unfoldable pub push : Bool → Task → List Task → List Task
push push_front task ts = if push_front then task ∷ ts else ts ++ (task ∷ [])

unfoldable pub add_to_running : ThreadState → Bool → Task → Dispatcher → Dispatcher
add_to_running running push_front task d = record d { task_list = push push_front task d.task_list }
add_to_running closing push_front task d = d
add_to_running terminated push_front task d = d

unfoldable pub add_task : Bool → Task → Dispatcher → Dispatcher
add_task push_front task d = add_to_running d.state push_front task d

-- A task that is called.
unfoldable pub call : Task → Dispatcher → Dispatcher
call task d = record d {
  state = if task.stops then terminated else d.state;
  dispatcher_cycle = (d.dispatcher_cycle + 1) % 2 ^ 64;
}

unfoldable pub take : ℕ → List Task → Dispatcher → Dispatcher
take now [] d = d
take now (task ∷ ts) d =
    let d' = record d {
      task_list = ts;
      taken = d.taken ++ ((task, not (has_expired now task)) ∷ []);
    } in
    if not (has_expired now task) then call task d' else d'

-- One round of threadMain at a time `now`.
unfoldable pub round_in : ThreadState → ℕ → Dispatcher → Dispatcher
round_in running now d = take now d.task_list d
round_in closing now d = take now d.task_list d
round_in terminated now d = d

unfoldable pub thread_main : ℕ → Dispatcher → Dispatcher
thread_main now d = round_in d.state now d

abbrev pub stop_task : Task
stop_task = record { id = 0; expiration = 0; stops = true }

unfoldable pub shutdown : Dispatcher → Dispatcher
shutdown d = record d { task_list = d.task_list ++ (stop_task ∷ []) }

-- What happens to a dispatcher.
pub data Action : Type 0 where
  add : Bool → Task → Action
  round : ℕ → Action
  stop : Action
  shut : Action

-- ThreadHolder::stop
unfoldable pub close : Dispatcher → Dispatcher
close d = record d { state = closing }

unfoldable pub act : Action → Dispatcher → Dispatcher
act (add push_front task) d = add_task push_front task d
act (round now) d = thread_main now d
act stop d = close d
act shut d = shutdown d

unfoldable pub run : List Action → Dispatcher → Dispatcher
run [] d = d
run (a ∷ rest) d = run rest (act a d)
