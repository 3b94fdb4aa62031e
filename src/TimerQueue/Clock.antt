-- ===== src/TimerQueue/Clock.antt =====
-- The answers of the clock that the queue of timers still has.
use c_cloud_storage.Prelude.{ℕ, ◌≤◌, Bool, true, false, List, [], ◌∷◌, ◌++◌, if◌then◌else◌, arith}
use c_cloud_storage.TimerQueue.{
  Timer, Entry, TimerQueue, now, ticked, reset_timer_fd, emplace, is_earliest, insert, add_timer,
  add_timers, restart, run_timers, reinsert,
}

-- No answer of the clock is later.
abbrev pub AllUpTo : ℕ → List ℕ → Type 0
AllUpTo last [] = Unit {0}
AllUpTo last (t ∷ ts) = (t ≤ last) × AllUpTo last ts

pub now_le : (last : ℕ) (q : TimerQueue) → AllUpTo last q.clock → now q ≤ last
now_le last q h = at q.clock h
  where
    at : (ts : List ℕ) → AllUpTo last ts → elim ts [ [] ↦ 0 | t ∷ _ ↦ t ] ≤ last
    at [] h = omega arith
    at (t ∷ ts) h = h.0

pub ticked-AllUpTo :
    (last : ℕ) (q : TimerQueue) → AllUpTo last q.clock → AllUpTo last (ticked q).clock
ticked-AllUpTo last q h = at q.clock h
  where
    at : (ts : List ℕ) → AllUpTo last ts → AllUpTo last (elim ts [ [] ↦ [] | _ ∷ l ↦ l ])
    at [] h = tt
    at (t ∷ ts) h = h.1

pub add_timer-AllUpTo :
    (last : ℕ) (t : Timer) (q : TimerQueue)
    → AllUpTo last q.clock
    → AllUpTo last (add_timer t q).clock
unfolding add_timer insert reset_timer_fd
add_timer-AllUpTo last t q h = chosen (is_earliest t.time q.timers)
  where
    placed : TimerQueue
    placed = record q { timers = emplace (record { at = t.time; timer = t }) q.timers }

    chosen : (b : Bool) → AllUpTo last (if b then reset_timer_fd t.time placed else placed).clock
    chosen true = ticked-AllUpTo last q h
    chosen false = h

add_timers-AllUpTo :
    (last : ℕ) (ts : List Timer) (q : TimerQueue)
    → AllUpTo last q.clock
    → AllUpTo last (add_timers ts q).clock
unfolding add_timers
add_timers-AllUpTo last [] q h = h
add_timers-AllUpTo last (t ∷ ts) q h =
    add_timers-AllUpTo last ts (add_timer t q) (add_timer-AllUpTo last t q h)

pub run_timers-AllUpTo :
    (last : ℕ) (adds : Timer → List Timer) (l : List Entry) (q : TimerQueue)
    → AllUpTo last q.clock
    → AllUpTo last (run_timers adds l q).clock
unfolding run_timers
run_timers-AllUpTo last adds [] q h = h
run_timers-AllUpTo last adds (e ∷ l) q h =
    let r = record q { ran = q.ran ++ e.timer.address ∷ [] } in
    run_timers-AllUpTo last adds l (add_timers (adds e.timer) r)
      (add_timers-AllUpTo last (adds e.timer) r h)

pub reinsert-AllUpTo :
    (last : ℕ) (l : List Entry) (q : TimerQueue)
    → AllUpTo last q.clock
    → AllUpTo last (reinsert l q).clock
unfolding reinsert insert
reinsert-AllUpTo last [] q h = h
reinsert-AllUpTo last (e ∷ l) q h =
    reinsert-AllUpTo last l
      (if e.timer.repeat then (insert (restart (now q) e.timer) (ticked q)).0 else q)
      (either e.timer.repeat)
  where
    either :
        (b : Bool)
        → AllUpTo last (if b then (insert (restart (now q) e.timer) (ticked q)).0 else q).clock
    either true = ticked-AllUpTo last q h
    either false = h
