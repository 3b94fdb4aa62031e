-- ===== src/TimerQueue/Tests.antt =====
-- The theorems on the queue of timers, at concrete inputs.
use c_cloud_storage.Prelude.{◌≡◌, refl, List, [], ◌∷◌, arith}
use c_cloud_storage.TimerQueue.{Timer, TimerQueue, create_timer, create, handle_read}
use c_cloud_storage.TimerQueue.Order.{adds_timer, reads, run, IsKept, run-IsKept}
use c_cloud_storage.TimerQueue.Expiry.{handle_read-ran}

-- Every second from one second on, and once after a second and a half.
abbrev ticking : Timer
ticking = create_timer 4096 1000000 1000000000

abbrev once : Timer
once = create_timer 4160 1500000 0

abbrev adds_none : Timer → List Timer
adds_none _ = []

abbrev empty : TimerQueue
empty = create (0 ∷ 10 ∷ 1600000 ∷ 1600001 ∷ 1600002 ∷ [])

run-IsKept_example :
    IsKept 1600002 (run adds_none (adds_timer once ∷ adds_timer ticking ∷ reads ∷ []) empty)
run-IsKept_example =
    run-IsKept 1600002 adds_none (adds_timer once ∷ adds_timer ticking ∷ reads ∷ []) empty
      (tt, tt, (omega arith, (omega arith, (omega arith, (omega arith, (omega arith, tt))))))

abbrev started : TimerQueue
started = record (create (1600000 ∷ 1600001 ∷ 1600002 ∷ [])) {
  timers = record { at = 1000000; timer = ticking } ∷ (record { at = 1500000; timer = once } ∷ []);
}

handle_read-ran_example : (handle_read adds_none started).ran ≡ 4096 ∷ (4160 ∷ [])
handle_read-ran_example =
    handle_read-ran adds_none started ((refl, tt), (tt, tt, refl), refl)
      (omega arith, (omega arith, tt))
