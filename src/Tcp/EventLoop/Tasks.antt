-- ===== src/Tcp/EventLoop/Tasks.antt =====
-- The tasks that a loop runs, and those that wait.
use c_cloud_storage.Prelude.{
  ℕ, ◌≡◌, refl, sym, subst, ap, ◌∙◌, true, false, List, [], ◌∷◌, ◌++◌, append-nil, append_assoc,
  arith,
}
use c_cloud_storage.Tcp.EventLoop.{
  EventLoop, queue_one_func, queue_all, run_task, run_tasks, do_to_do_list,
}

-- The tasks that some tasks queue.
abbrev pub all_queued : (ℕ → List ℕ) → List ℕ → List ℕ
all_queued queues [] = []
all_queued queues (t ∷ ts) = queues t ++ all_queued queues ts

-- In the loop's thread, while it runs its tasks.
abbrev Queued : List ℕ → EventLoop → EventLoop → Type 0
Queued new l k =
    (k.tasks ≡ l.tasks ++ new)
    × (k.ran ≡ l.ran)
    × (k.wakeup ≡ l.wakeup)
    × (k.calling_functor ≡ true)

queue_one_lem :
    (t : ℕ) (l : EventLoop)
    → l.calling_functor ≡ true
    → queue_one_func true t l ≡ record l { tasks = l.tasks ++ t ∷ [] }
unfolding queue_one_func
queue_one_lem t l h = ground (arith, h)

queue_all-Queued :
    (ts : List ℕ) (l : EventLoop) → l.calling_functor ≡ true → Queued ts l (queue_all ts l)
unfolding queue_all
queue_all-Queued [] l h = (sym (append-nil l.tasks), refl, refl, h)
queue_all-Queued (t ∷ ts) l h =
    subst (λ k. Queued (t ∷ ts) l (queue_all ts k)) (sym (queue_one_lem t l h))
      (let k = record l { tasks = l.tasks ++ t ∷ [] } in
        let (tasks, ran, wakeup, calling) = queue_all-Queued ts k h in
        (tasks ∙ append_assoc l.tasks (t ∷ []) ts, ran, wakeup, calling))

abbrev Ran : (ℕ → List ℕ) → List ℕ → EventLoop → EventLoop → Type 0
Ran queues ts l k =
    (k.ran ≡ l.ran ++ ts) × (k.tasks ≡ l.tasks ++ all_queued queues ts) × (k.wakeup ≡ l.wakeup)

run_tasks-Ran :
    (queues : ℕ → List ℕ) (ts : List ℕ) (l : EventLoop)
    → l.calling_functor ≡ true
    → Ran queues ts l (run_tasks queues ts l)
unfolding run_tasks
run_tasks-Ran queues [] l h = (sym (append-nil l.ran), sym (append-nil l.tasks), refl)
run_tasks-Ran queues (t ∷ ts) l h =
    let (tasks, ran, wakeup, calling) =
      queue_all-Queued (queues t) (record l { ran = l.ran ++ t ∷ [] }) h in
    let (ran', tasks', wakeup') = run_tasks-Ran queues ts (run_task queues t l) calling in
    (
      ran' ∙ ap (λ r. r ++ ts) ran ∙ append_assoc l.ran (t ∷ []) ts,
      tasks'
          ∙ ap (λ r. r ++ all_queued queues ts) tasks
          ∙ append_assoc l.tasks (queues t) (all_queued queues ts),
      wakeup' ∙ wakeup,
    )

-- `doToDoList` runs the tasks of the queue, each once and in order, and leaves in the queue those
-- that they queued meanwhile. It does not wake the loop up for these: the count of the event
-- descriptor is what it was, so that they wait until something else makes `poll` return.
pub do_to_do_list_lem :
    (queues : ℕ → List ℕ) (l : EventLoop)
    → ((do_to_do_list queues l).ran ≡ l.ran ++ l.tasks)
      × ((do_to_do_list queues l).tasks ≡ all_queued queues l.tasks)
      × ((do_to_do_list queues l).wakeup ≡ l.wakeup)
unfolding do_to_do_list
do_to_do_list_lem queues l = at l.tasks refl
  where
    after : List ℕ → EventLoop
    after ts = elim ts [
      | [] ↦ record l { calling_functor = false }
      | t ∷ ts ↦
          record (run_tasks queues (t ∷ ts) (record l { calling_functor = true; tasks = [] })) {
            calling_functor = false;
          }
    ]

    at :
        (ts : List ℕ)
        → l.tasks ≡ ts
        → ((after ts).ran ≡ l.ran ++ ts)
          × ((after ts).tasks ≡ all_queued queues ts)
          × ((after ts).wakeup ≡ l.wakeup)
    at [] e = (sym (append-nil l.ran), e, refl)
    at (t ∷ ts) e =
        run_tasks-Ran queues (t ∷ ts) (record l { calling_functor = true; tasks = [] }) refl
