-- ===== src/Task/Scheduler/Events.antt =====
-- Which events reach the dispatcher.
use rubyserver.Base.{
  ℕ, ◌+◌, ◌%◌, ◌^◌, ◌≤◌, ◌<◌, ◌≡◌, refl, true, false, List, [], ◌∷◌, ◌++◌, arith, ◌==◌,
  if◌then◌else◌, length, Option-cases, ◌⊎◌, inl, inr, if_either,
}
use rubyserver.Task.Scheduler.{
  SchedulerTask, Scheduler, mem, insert, erase, next_id, add_event, stop_event, take_at,
  none_earlier, pop_task, on_timeout, shutdown, Action, add, stop, timeout, shut, act, run,
}

unfoldable pub times : ℕ → List ℕ → ℕ
times id [] = 0
times id (x ∷ xs) = (if x == id then 1 else 0) + times id xs

times-append : (id : ℕ) (xs ys : List ℕ) → times id (xs ++ ys) ≡ times id xs + times id ys
unfolding times
times-append id [] ys = omega arith
times-append id (x ∷ xs) ys = omega (arith, times-append id xs ys)

mem-times : (id : ℕ) (xs : List ℕ) → mem id xs ≡ false → times id xs ≡ 0
unfolding times
mem-times id [] h = refl
mem-times id (x ∷ xs) h = ground (arith, h, mem-times id xs)

times-insert :
    (id new : ℕ) (xs : List ℕ)
    → times id (insert new xs) ≤ times id xs + (if new == id then 1 else 0)
unfolding times insert
times-insert id new xs = ground (arith, mem-times new xs)

times-erase :
    (id old : ℕ) (xs : List ℕ) → times id (erase old xs) ≡ (if old == id then 0 else times id xs)
unfolding times erase
times-erase id old [] = ground arith
times-erase id old (x ∷ xs) = ground (arith, times-erase id old xs)

mem-times_positive : (id : ℕ) (xs : List ℕ) → mem id xs ≡ true → 1 ≤ times id xs
unfolding times
mem-times_positive id [] h = absurd (ground (arith, h))
mem-times_positive id (x ∷ xs) h = ground (arith, h, mem-times_positive id xs)

-- An event counts once for its id in the set and once for its dispatch; ids above the last one given
-- do not count.
abbrev used : ℕ → Scheduler → ℕ
used id s = times id s.event_ids + times id s.dispatched

abbrev IsOnce : ℕ → Scheduler → Type 0
IsOnce id s = (used id s ≤ 1) × ((used id s ≡ 0) ⊎ (id ≤ s.last_event_id))

next_id-small : (last : ℕ) → last + 1 < 2 ^ 32 → next_id last ≡ last + 1
unfolding next_id
next_id-small last h =
    let same : (last + 1) % 2 ^ 32 ≡ last + 1 = omega (arith, h) in
    let positive : (last + 1 == 0) ≡ false = ground arith in rw (same, positive)

add_event-IsOnce :
    (id cycle : ℕ) (s : Scheduler)
    → s.last_event_id + 1 < 2 ^ 32
    → IsOnce id s
    → IsOnce id (act (add cycle) s)
unfolding act add_event
add_event-IsOnce id cycle s small h = ground (
  arith,
  h,
  next_id-small s.last_event_id small,
  times-insert id (next_id s.last_event_id) s.event_ids,
)

stop_event-IsOnce : (id old : ℕ) (s : Scheduler) → IsOnce id s → IsOnce id (act (stop old) s)
unfolding act stop_event
stop_event-IsOnce id old s h = ground (arith, h, times-erase id old s.event_ids)

pop_task-IsOnce :
    (id : ℕ) (t : SchedulerTask) (rest : List SchedulerTask) (s : Scheduler)
    → IsOnce id s
    → IsOnce id (pop_task t rest s)
unfolding pop_task times
pop_task-IsOnce id t rest s h = ground (
  arith,
  h,
  times-erase id t.event_id s.event_ids,
  times-append id s.dispatched (t.event_id ∷ []),
  mem-times_positive t.event_id s.event_ids,
)

-- A timeout changes nothing or pops a task.
on_timeout-either {ℓ} :
    (P : Scheduler → Type ℓ) (i : ℕ) (s : Scheduler)
    → P s
    → ((t : SchedulerTask) (rest : List SchedulerTask) → P (pop_task t rest s))
    → P (on_timeout i s)
unfolding on_timeout
on_timeout-either P i s h k = elim (Option-cases (take_at i s.event_list)) [
  | inl e ↦ rw (e, on_timeout) h
  | inr ((t, rest), e) ↦
      rw (e, on_timeout) (if_either P (none_earlier t rest) (pop_task t rest s) s (k t rest) h)
]

act-IsOnce :
    (id : ℕ) (a : Action) (s : Scheduler)
    → s.last_event_id + 1 < 2 ^ 32
    → IsOnce id s
    → IsOnce id (act a s)
act-IsOnce id (add cycle) s small h = add_event-IsOnce id cycle s small h
act-IsOnce id (stop old) s small h = stop_event-IsOnce id old s h
act-IsOnce id (timeout i) s small h =
    unfold act in on_timeout-either (IsOnce id) i s h (λ t rest. pop_task-IsOnce id t rest s h)
act-IsOnce id shut s small h = unfold act shutdown times in ground (arith, h)

act-last :
    (a : Action) (s : Scheduler)
    → s.last_event_id + 1 < 2 ^ 32
    → (s.last_event_id ≤ (act a s).last_event_id) × ((act a s).last_event_id ≤ s.last_event_id + 1)
unfolding act add_event stop_event shutdown pop_task
act-last (add cycle) s small = ground (arith, next_id-small s.last_event_id small)
act-last (stop id) s small = ground arith
act-last (timeout i) s small =
    on_timeout-either
      (λ r. (s.last_event_id ≤ r.last_event_id) × (r.last_event_id ≤ s.last_event_id + 1)) i s
      ((omega arith, omega arith)) (λ t rest. ground arith)
act-last shut s small = (omega arith, omega arith)

run-IsOnce :
    (id : ℕ) (actions : List Action) (s : Scheduler)
    → s.last_event_id + length actions < 2 ^ 32
    → IsOnce id s
    → IsOnce id (run actions s)
unfolding run
run-IsOnce id [] s small h = h
run-IsOnce id (a ∷ actions) s small h =
    let low : s.last_event_id + 1 < 2 ^ 32 = omega (arith, small) in
    run-IsOnce id actions (act a s) (omega (arith, small, act-last a s low))
      (act-IsOnce id a s low h)

abbrev pub started : Scheduler
started = record {
  running = true;
  last_event_id = 0;
  event_list = [];
  event_ids = [];
  dispatched = [];
}

-- Before 2^32 operations are done no event that was added with the id 0 is dispatched twice, whatever
-- events are added, stopped and run in between.
pub dispatched-once :
    (id : ℕ) (actions : List Action)
    → length actions < 2 ^ 32
    → times id (run actions started).dispatched ≤ 1
dispatched-once id actions small =
    let h =
      run-IsOnce id actions started (omega (arith, small))
        (unfold times in (omega arith, inl refl)) in
    omega (arith, h.0)

-- An event that was given an id, and is not in the set.
abbrev IsStopped : ℕ → ℕ → Scheduler → Type 0
IsStopped id n s =
    (times id s.event_ids ≡ 0) × ((id ≤ s.last_event_id) × (times id s.dispatched ≡ n))

pop_task-IsStopped :
    (id n : ℕ) (t : SchedulerTask) (rest : List SchedulerTask) (s : Scheduler)
    → IsStopped id n s
    → IsStopped id n (pop_task t rest s)
unfolding pop_task times
pop_task-IsStopped id n t rest s h = ground (
  arith,
  h,
  times-erase id t.event_id s.event_ids,
  times-append id s.dispatched (t.event_id ∷ []),
  mem-times_positive t.event_id s.event_ids,
)

act-IsStopped :
    (id n : ℕ) (a : Action) (s : Scheduler)
    → s.last_event_id + 1 < 2 ^ 32
    → IsStopped id n s
    → IsStopped id n (act a s)
act-IsStopped id n (add cycle) s small h =
    unfold act add_event in
    ground (
      arith,
      h,
      next_id-small s.last_event_id small,
      times-insert id (next_id s.last_event_id) s.event_ids,
    )
act-IsStopped id n (stop old) s small h =
    unfold act stop_event in ground (arith, h, times-erase id old s.event_ids)
act-IsStopped id n (timeout i) s small h =
    unfold act in
    on_timeout-either (IsStopped id n) i s h (λ t rest. pop_task-IsStopped id n t rest s h)
act-IsStopped id n shut s small h = unfold act shutdown times in ground (arith, h)

run-IsStopped :
    (id n : ℕ) (actions : List Action) (s : Scheduler)
    → s.last_event_id + length actions < 2 ^ 32
    → IsStopped id n s
    → IsStopped id n (run actions s)
unfolding run
run-IsStopped id n [] s small h = h
run-IsStopped id n (a ∷ actions) s small h =
    let low : s.last_event_id + 1 < 2 ^ 32 = omega (arith, small) in
    run-IsStopped id n actions (act a s) (omega (arith, small, act-last a s low))
      (act-IsStopped id n a s low h)

stop_event-IsStopped :
    (id : ℕ) (s : Scheduler)
    → id ≤ s.last_event_id
    → (stop_event id s).0 ≡ true
    → IsStopped id (times id s.dispatched) (stop_event id s).1
unfolding stop_event
stop_event-IsStopped id s old h = ground (arith, h, old, times-erase id id s.event_ids)

-- An event that stopEvent answers yes to is not dispatched afterwards, by whatever follows before the
-- ids wrap.
pub stop_event-never :
    (id : ℕ) (s : Scheduler) (actions : List Action)
    → id ≤ s.last_event_id
    → s.last_event_id + length actions < 2 ^ 32
    → (stop_event id s).0 ≡ true
    → times id (run actions (stop_event id s).1).dispatched ≡ times id s.dispatched
stop_event-never id s actions old small h =
    (run-IsStopped id (times id s.dispatched) actions (stop_event id s).1
      (unfold stop_event in ground (arith, small)) (stop_event-IsStopped id s old h)).1.1
