-- ===== src/Task/Dispatcher/Sequence.antt =====
-- The order in which tasks are taken.
use mathlib.Core.List.{append_assoc, append-nil}
use rubyserver.Base.{
  ℕ, ◌+◌, ◌⊎◌, inl, inr, Bool-cases, arith, if_split, if◌then◌else◌, true, ◌≡◌, refl, sym, ◌∙◌, ap,
  Bool, false, not, List, [], ◌∷◌, ◌++◌, if_either,
}
use rubyserver.Task.Dispatcher.{
  Task, ThreadState, running, closing, terminated, Dispatcher, has_expired, push, add_to_running,
  add_task, call, take, round_in, thread_main, stop_task, shutdown, Action, add, round, stop, shut,
  close, act, run,
}

abbrev pub tasks_of : List (Task × Bool) → List Task
tasks_of [] = []
tasks_of ((task, called) ∷ rest) = task ∷ tasks_of rest

-- All tasks that the dispatcher has had.
abbrev pub tasks : Dispatcher → List Task
tasks d = tasks_of d.taken ++ d.task_list

-- The tasks that an action brings.
unfoldable pub brings : Action → ThreadState → List Task
brings (add push_front task) running = task ∷ []
brings (add push_front task) closing = []
brings (add push_front task) terminated = []
brings (round now) state = []
brings stop state = []
brings shut state = stop_task ∷ []

unfoldable pub all_brought : List Action → Dispatcher → List Task
all_brought [] d = []
all_brought (a ∷ rest) d = brings a d.state ++ all_brought rest (act a d)

tasks_of-append :
    (xs : List (Task × Bool)) (task : Task) (called : Bool)
    → tasks_of (xs ++ ((task, called) ∷ [])) ≡ tasks_of xs ++ (task ∷ [])
tasks_of-append [] task called = refl
tasks_of-append ((t, c) ∷ xs) task called = ap (λ ts. t ∷ ts) (tasks_of-append xs task called)

take-tasks :
    (now : ℕ) (ts : List Task) (d : Dispatcher) → d.task_list ≡ ts → tasks (take now ts d) ≡ tasks d
unfolding take call
take-tasks now [] d e = refl
take-tasks now (task ∷ ts) d e =
    let called = not (has_expired now task) in
    let same : tasks_of (d.taken ++ ((task, called) ∷ [])) ++ ts ≡ tasks d =
      ap (λ xs. xs ++ ts) (tasks_of-append d.taken task called)
      ∙ append_assoc (tasks_of d.taken) (task ∷ []) ts
      ∙ ap (λ xs. tasks_of d.taken ++ xs) (sym e) in
    if_either (λ (d' : Dispatcher). tasks d' ≡ tasks d) called _ _ same same

thread_main-tasks : (now : ℕ) (d : Dispatcher) → tasks (thread_main now d) ≡ tasks d
unfolding thread_main
thread_main-tasks now d = by_state d.state
  where
    by_state : (s : ThreadState) → tasks (round_in s now d) ≡ tasks d
    by_state running = unfold round_in in take-tasks now d.task_list d refl
    by_state closing = unfold round_in in take-tasks now d.task_list d refl
    by_state terminated = unfold round_in in refl

-- The tasks of a list that are of a kind.
abbrev pub of_kind : (Task → Bool) → List Task → List Task
of_kind kind [] = []
of_kind kind (task ∷ ts) = if kind task then task ∷ of_kind kind ts else of_kind kind ts

of_kind-append :
    (kind : Task → Bool) (xs ys : List Task)
    → of_kind kind (xs ++ ys) ≡ of_kind kind xs ++ of_kind kind ys
of_kind-append kind [] ys = refl
of_kind-append kind (x ∷ xs) ys = elim (Bool-cases (kind x)) [
  | inl e ↦ rw e (ap (λ ts. x ∷ ts) (of_kind-append kind xs ys))
  | inr e ↦ rw e (of_kind-append kind xs ys)
]

-- How many tasks of a kind there are.
abbrev pub times : (Task → Bool) → List Task → ℕ
times kind [] = 0
times kind (task ∷ ts) = (if kind task then 1 else 0) + times kind ts

times-append :
    (kind : Task → Bool) (xs ys : List Task) → times kind (xs ++ ys) ≡ times kind xs + times kind ys
times-append kind [] ys = omega arith
times-append kind (x ∷ xs) ys = omega (arith, times-append kind xs ys)

-- What is pushed to the front is not of the kind.
abbrev pub IsBehind : (Task → Bool) → Action → Type 0
IsBehind kind (add push_front task) = (push_front ≡ false) ⊎ (kind task ≡ false)
IsBehind kind (round now) = Unit
IsBehind kind stop = Unit
IsBehind kind shut = Unit

abbrev pub AreBehind : (Task → Bool) → List Action → Type 0
AreBehind kind [] = Unit
AreBehind kind (a ∷ rest) = IsBehind kind a × AreBehind kind rest

skip_kind :
    (kind : Task → Bool) (task : Task) (ts : List Task)
    → kind task ≡ false
    → of_kind kind (task ∷ ts) ≡ of_kind kind ts
skip_kind kind task ts e =
    if_split (λ (xs : List Task). xs ≡ of_kind kind ts) (kind task) (task ∷ of_kind kind ts) _
      (λ k. absurd (ground (arith, e, k))) (λ k. refl)

-- A task that is added.
push-of_kind :
    (kind : Task → Bool) (push_front : Bool) (task : Task) (xs ts : List Task)
    → (push_front ≡ false) ⊎ (kind task ≡ false)
    → of_kind kind (xs ++ push push_front task ts)
      ≡ of_kind kind (xs ++ ts) ++ of_kind kind (task ∷ [])
unfolding push
push-of_kind kind false task xs ts h =
    ap (of_kind kind) (sym (append_assoc xs ts (task ∷ [])))
    ∙ of_kind-append kind (xs ++ ts) (task ∷ [])
push-of_kind kind true task xs ts (inl h) = absurd (ground (arith, h))
push-of_kind kind true task xs ts (inr h) =
    of_kind-append kind xs (task ∷ ts)
    ∙ ap (λ l. of_kind kind xs ++ l) (skip_kind kind task ts h)
    ∙ sym (of_kind-append kind xs ts)
    ∙ sym (append-nil (of_kind kind (xs ++ ts)))
    ∙ ap (λ l. of_kind kind (xs ++ ts) ++ l) (sym (skip_kind kind task [] h))

push-times :
    (kind : Task → Bool) (push_front : Bool) (task : Task) (xs ts : List Task)
    → times kind (xs ++ push push_front task ts) ≡ times kind (xs ++ ts) + times kind (task ∷ [])
unfolding push
push-times kind true task xs ts =
    omega (arith, times-append kind xs (task ∷ ts), times-append kind xs ts)
push-times kind false task xs ts = omega (
  arith,
  times-append kind xs (ts ++ (task ∷ [])),
  times-append kind ts (task ∷ []),
  times-append kind xs ts,
)

-- What an action does to the tasks of a kind: in order, and in number.
abbrev InOrder : (Task → Bool) → List Task → Dispatcher → Dispatcher → Type 0
InOrder kind new d d' = of_kind kind (tasks d') ≡ of_kind kind (tasks d) ++ of_kind kind new

abbrev InNumber : (Task → Bool) → List Task → Dispatcher → Dispatcher → Type 0
InNumber kind new d d' = times kind (tasks d') ≡ times kind (tasks d) + times kind new

same-InOrder : (kind : Task → Bool) (d d' : Dispatcher) → tasks d' ≡ tasks d → InOrder kind [] d d'
same-InOrder kind d d' e = ap (of_kind kind) e ∙ sym (append-nil (of_kind kind (tasks d)))

same-InNumber :
    (kind : Task → Bool) (d d' : Dispatcher) → tasks d' ≡ tasks d → InNumber kind [] d d'
same-InNumber kind d d' e =
    let same : times kind (tasks d') ≡ times kind (tasks d) = ap (times kind) e in
    omega (arith, same)

add_task-InOrder :
    (kind : Task → Bool) (push_front : Bool) (task : Task) (s : ThreadState) (d : Dispatcher)
    → (push_front ≡ false) ⊎ (kind task ≡ false)
    → InOrder kind (brings (add push_front task) s) d (add_to_running s push_front task d)
unfolding add_to_running brings
add_task-InOrder kind push_front task running d h =
    push-of_kind kind push_front task (tasks_of d.taken) d.task_list h
add_task-InOrder kind push_front task closing d h = same-InOrder kind d d refl
add_task-InOrder kind push_front task terminated d h = same-InOrder kind d d refl

add_task-InNumber :
    (kind : Task → Bool) (push_front : Bool) (task : Task) (s : ThreadState) (d : Dispatcher)
    → InNumber kind (brings (add push_front task) s) d (add_to_running s push_front task d)
unfolding add_to_running brings
add_task-InNumber kind push_front task running d =
    push-times kind push_front task (tasks_of d.taken) d.task_list
add_task-InNumber kind push_front task closing d = same-InNumber kind d d refl
add_task-InNumber kind push_front task terminated d = same-InNumber kind d d refl

act-InOrder :
    (kind : Task → Bool) (a : Action) (d : Dispatcher)
    → IsBehind kind a
    → InOrder kind (brings a d.state) d (act a d)
unfolding act add_task shutdown close brings
act-InOrder kind (add push_front task) d h = add_task-InOrder kind push_front task d.state d h
act-InOrder kind (round now) d h = same-InOrder kind d (thread_main now d) (thread_main-tasks now d)
act-InOrder kind stop d h = same-InOrder kind d (record d { state = closing }) refl
act-InOrder kind shut d h =
    unfold push in push-of_kind kind false stop_task (tasks_of d.taken) d.task_list (inl refl)

act-InNumber :
    (kind : Task → Bool) (a : Action) (d : Dispatcher)
    → InNumber kind (brings a d.state) d (act a d)
unfolding act add_task shutdown close brings
act-InNumber kind (add push_front task) d = add_task-InNumber kind push_front task d.state d
act-InNumber kind (round now) d = same-InNumber kind d (thread_main now d) (thread_main-tasks now d)
act-InNumber kind stop d = same-InNumber kind d (record d { state = closing }) refl
act-InNumber kind shut d =
    unfold push in push-times kind false stop_task (tasks_of d.taken) d.task_list

-- Of tasks of a kind that no call of addTask pushes to the front, those that a dispatcher took off its
-- list, followed by those that wait, are the ones it had and then those that it accepted, the task of
-- shutdown among them, in the order of the calls, whenever the rounds of threadMain come and whatever
-- other tasks are pushed in front of them.
pub run-InOrder :
    (kind : Task → Bool) (actions : List Action) (d : Dispatcher)
    → AreBehind kind actions
    → of_kind kind (tasks (run actions d))
      ≡ of_kind kind (tasks d) ++ of_kind kind (all_brought actions d)
unfolding run all_brought
run-InOrder kind [] d h = sym (append-nil (of_kind kind (tasks d)))
run-InOrder kind (a ∷ rest) d h =
    run-InOrder kind rest (act a d) h.1
    ∙ ap (λ xs. xs ++ of_kind kind (all_brought rest (act a d))) (act-InOrder kind a d h.0)
    ∙ append_assoc (of_kind kind (tasks d)) (of_kind kind (brings a d.state))
        (of_kind kind (all_brought rest (act a d)))
    ∙ ap (λ xs. of_kind kind (tasks d) ++ xs)
        (sym (of_kind-append kind (brings a d.state) (all_brought rest (act a d))))

-- Of tasks of any kind as many were taken or wait as the dispatcher had and accepted, the task of
-- shutdown among them, whether they are pushed to the front or the back.
pub run-InNumber :
    (kind : Task → Bool) (actions : List Action) (d : Dispatcher)
    → times kind (tasks (run actions d)) ≡ times kind (tasks d) + times kind (all_brought actions d)
unfolding run all_brought
run-InNumber kind [] d = omega arith
run-InNumber kind (a ∷ rest) d = omega (
  arith,
  run-InNumber kind rest (act a d),
  act-InNumber kind a d,
  times-append kind (brings a d.state) (all_brought rest (act a d)),
)
