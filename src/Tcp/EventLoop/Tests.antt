-- ===== src/Tcp/EventLoop/Tests.antt =====
-- The theorem on the tasks of a loop, at a concrete input.
use c_cloud_storage.Prelude.{ℕ, ◌≡◌, ◌==◌, if◌then◌else◌, List, [], ◌∷◌}
use c_cloud_storage.TimerQueue
use c_cloud_storage.Tcp.EventLoop.{EventLoop, create, do_to_do_list}
use c_cloud_storage.Tcp.EventLoop.Tasks.{do_to_do_list_lem}

-- Task 1 queues task 7.
abbrev queues : ℕ → List ℕ
queues t = if t == 1 then 7 ∷ [] else []

abbrev two_tasks : EventLoop
two_tasks = record (create (TimerQueue.create [])) { tasks = 1 ∷ 2 ∷ [] }

do_to_do_list_lem_example :
    ((do_to_do_list queues two_tasks).ran ≡ 1 ∷ 2 ∷ [])
    × ((do_to_do_list queues two_tasks).tasks ≡ 7 ∷ [])
    × ((do_to_do_list queues two_tasks).wakeup ≡ 0)
do_to_do_list_lem_example = do_to_do_list_lem queues two_tasks
