-- ===== src/Task/Scheduler.antt =====
-- Scheduler of src/scheduler.h and src/scheduler.cpp. Each operation holds the event lock, so runs are
-- sequences of operations. The time of the next event and the choice among events of the same time
-- belong to the priority queue and the clock: a run names the event that is on top.
pub mod Events
use rubyserver.Base.{
  ℕ, zero, suc, ◌+◌, ◌%◌, ◌^◌, Bool, true, false, not, ◌&&◌, ◌||◌, List, [], ◌∷◌, ◌++◌, Option,
  none, some, leb, ◌==◌, if◌then◌else◌,
}

pub record SchedulerTask : Type 0 where
  pub event_id : ℕ
  pub cycle : ℕ

-- `dispatched` are the event ids of the tasks given to g_dispatcher.addTask, the first one first.
pub record Scheduler : Type 0 where
  pub running : Bool
  pub last_event_id : ℕ
  pub event_list : List SchedulerTask
  pub event_ids : List ℕ
  pub dispatched : List ℕ

abbrev pub mem : ℕ → List ℕ → Bool
mem id [] = false
mem id (x ∷ xs) = x == id || mem id xs

-- eventIds.insert and erase: a set.
unfoldable pub insert : ℕ → List ℕ → List ℕ
insert id ids = if mem id ids then ids else id ∷ ids

unfoldable pub erase : ℕ → List ℕ → List ℕ
erase id [] = []
erase id (x ∷ xs) = let rest = erase id xs in if x == id then rest else x ∷ rest

-- ++lastEventId, which is 1 where it wraps to 0.
unfoldable pub next_id : ℕ → ℕ
next_id last = let next = (last + 1) % 2 ^ 32 in if next == 0 then 1 else next

-- addEvent of a task that has an id, or 0.
unfoldable pub add_event : SchedulerTask → Scheduler → ℕ × Scheduler
add_event task s =
    let last = if task.event_id == 0 then next_id s.last_event_id else s.last_event_id in
    let id = if task.event_id == 0 then next_id s.last_event_id else task.event_id in
    if s.running
    then (
      id,
      record s {
        last_event_id = last;
        event_ids = insert id s.event_ids;
        event_list = record task { event_id = id } ∷ s.event_list;
      },
    )
    else (0, s)

unfoldable pub stop_event : ℕ → Scheduler → Bool × Scheduler
stop_event id s =
    if id == 0
    then (false, s)
    else (if mem id s.event_ids
        then (true, record s { event_ids = erase id s.event_ids })
        else (false, s))

-- The queue without the task at an index, if that one may be on top: none is earlier.
unfoldable pub take_at : ℕ → List SchedulerTask → Option (SchedulerTask × List SchedulerTask)
take_at i [] = none
take_at zero (t ∷ ts) = some (t, ts)
take_at (suc i) (t ∷ ts) = elim (take_at i ts) [ none ↦ none | some (u, rest) ↦ some (u, t ∷ rest) ]

abbrev pub none_earlier : SchedulerTask → List SchedulerTask → Bool
none_earlier t [] = true
none_earlier t (u ∷ us) = leb t.cycle u.cycle && none_earlier t us

-- threadMain behind a timeout: the task on top, dropped if it was stopped.
unfoldable pub pop_task : SchedulerTask → List SchedulerTask → Scheduler → Scheduler
pop_task t rest s =
    if mem t.event_id s.event_ids
    then record s {
      event_list = rest;
      event_ids = erase t.event_id s.event_ids;
      dispatched = s.dispatched ++ (t.event_id ∷ []);
    }
    else record s { event_list = rest }

unfoldable pub on_timeout : ℕ → Scheduler → Scheduler
on_timeout i s = elim (take_at i s.event_list) [
  | none ↦ s
  | some (t, rest) ↦ if none_earlier t rest then pop_task t rest s else s
]

unfoldable pub shutdown : Scheduler → Scheduler
shutdown s = record s { running = false; event_list = []; event_ids = [] }

-- What the server's threads do to the scheduler: new events have the id 0.
pub data Action : Type 0 where
  add : ℕ → Action
  stop : ℕ → Action
  timeout : ℕ → Action
  shut : Action

unfoldable pub act : Action → Scheduler → Scheduler
act (add cycle) s = (add_event (record { event_id = 0; cycle = cycle }) s).1
act (stop id) s = (stop_event id s).1
act (timeout i) s = on_timeout i s
act shut s = shutdown s

unfoldable pub run : List Action → Scheduler → Scheduler
run [] s = s
run (a ∷ actions) s = run actions (act a s)
