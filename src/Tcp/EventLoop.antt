-- ===== src/Tcp/EventLoop.antt =====
-- mymuduo/tcp/EventLoop.cpp: the queue of tasks of a loop, and its timers. A task is a number, and
-- `queues` says which tasks it queues on the same loop, from the loop's thread, while it runs.
-- `wakeup` is the count of the event descriptor: `poll` returns for it when it is above 0. Locks
-- are left out: each operation is one step. `none` is an assertion that fails.
pub mod Tasks
mod Tests
use c_cloud_storage.Prelude.{
  ℕ, ◌+◌, ◌%◌, ◌^◌, Bool, true, false, not, ◌||◌, Option, none, some, List, [], ◌∷◌, ◌++◌, ltb,
  if◌then◌else◌,
}
use c_cloud_storage.TimerQueue.{TimerQueue, create_timer, add_time, add_timer, now, ticked}

pub record EventLoop : Type 0 where
  pub quit : Bool
  pub calling_functor : Bool
  pub wakeup : ℕ
  pub tasks : List ℕ
  pub timer_queue : TimerQueue
  pub ran : List ℕ

abbrev pub create : TimerQueue → EventLoop
create timers = record {
  quit = false;
  calling_functor = false;
  wakeup = 0;
  tasks = [];
  timer_queue = timers;
  ran = [];
}

-- `in_loop`: the caller is the thread of the loop.
unfoldable pub queue_one_func : Bool → ℕ → EventLoop → EventLoop
queue_one_func in_loop t l =
    let k = record l { tasks = l.tasks ++ t ∷ [] } in
    if not l.calling_functor || not in_loop then record k { wakeup = k.wakeup + 1 } else k

unfoldable pub queue_all : List ℕ → EventLoop → EventLoop
unfolding queue_one_func
queue_all [] l = l
queue_all (t ∷ ts) l = queue_all ts (queue_one_func true t l)

abbrev pub run_task : (ℕ → List ℕ) → ℕ → EventLoop → EventLoop
run_task queues t l = queue_all (queues t) (record l { ran = l.ran ++ t ∷ [] })

unfoldable pub run_one_func : (ℕ → List ℕ) → Bool → ℕ → EventLoop → EventLoop
unfolding queue_one_func queue_all
run_one_func queues in_loop t l =
    if in_loop then run_task queues t l else queue_one_func in_loop t l

unfoldable pub run_tasks : (ℕ → List ℕ) → List ℕ → EventLoop → EventLoop
unfolding queue_all
run_tasks queues [] l = l
run_tasks queues (t ∷ ts) l = run_tasks queues ts (run_task queues t l)

-- The tasks are taken out of the queue before they run.
unfoldable pub do_to_do_list : (ℕ → List ℕ) → EventLoop → EventLoop
unfolding run_tasks
do_to_do_list queues l = elim l.tasks [
  | [] ↦ record l { calling_functor = false }
  | t ∷ ts ↦ record (run_tasks queues (t ∷ ts) (record l { calling_functor = true; tasks = [] })) {
    calling_functor = false;
  }
]

-- Reading the descriptor sets its count to 0; there must be something to read.
unfoldable pub handle_wakeup : EventLoop → Option EventLoop
handle_wakeup l = if ltb 0 l.wakeup then some (record l { wakeup = 0 }) else none

-- A timer that runs once. `address` is where it is allocated.
unfoldable pub run_at : ℕ → ℕ → EventLoop → EventLoop
unfolding add_timer
run_at address time l = record l {
  timer_queue = add_timer (create_timer address time 0) l.timer_queue;
}

unfoldable pub run_after : ℕ → ℕ → EventLoop → EventLoop
unfolding run_at
run_after address delay l =
    run_at address (add_time (now l.timer_queue) delay)
      (record l { timer_queue = ticked l.timer_queue })
