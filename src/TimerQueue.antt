-- ===== src/TimerQueue.antt =====
-- mymuduo/timer: TimerQueue.cpp, Timer.cpp and inc/TimeStamp.h. The set of entries is a list in the
-- order of its keys, the time and the address of the timer. A time is in microseconds, an interval
-- in nanoseconds, where the program has a `double` of seconds; an interval that is not positive is
-- 0. `clock` has the answers of `TimeStamp::Now`, in order, and 0 after the last. `armed` is the
-- time at which the descriptor of the timer becomes readable. `ran` has the addresses of the timers
-- whose callbacks ran.
pub mod Clock
pub mod Order
pub mod Expiry
mod Tests
use c_cloud_storage.Prelude.{
  ℕ, ◌+◌, ◌-◌, ◌*◌, ◌/◌, ◌^◌, Bool, true, false, ◌&&◌, ◌||◌, Option, none, some, List, [], ◌∷◌,
  ◌++◌, ltb, ◌==◌, if◌then◌else◌,
}

pub record Timer : Type 0 where
  pub address : ℕ
  pub time : ℕ
  pub interval : ℕ
  pub repeat : Bool

-- `Timer::Timer`, at its address.
abbrev pub create_timer : ℕ → ℕ → ℕ → Timer
create_timer address time interval = record {
  address = address;
  time = time;
  interval = interval;
  repeat = ltb 0 interval;
}

-- `TimeStamp::AddTime`; the fraction of a microsecond is cut off.
abbrev pub add_time : ℕ → ℕ → ℕ
add_time time interval = time + interval / 1000

unfoldable pub restart : ℕ → Timer → Timer
restart now t =
    if t.repeat then record t { time = add_time now t.interval } else record t { time = now }

pub record Entry : Type 0 where
  pub at : ℕ
  pub timer : Timer

-- `operator<` of the pairs.
abbrev pub lt_entry : Entry → ℕ → ℕ → Bool
lt_entry e time address = ltb e.at time || (e.at == time && ltb e.timer.address address)

pub record TimerQueue : Type 0 where
  pub timers : List Entry
  pub active_timers : List Entry
  pub clock : List ℕ
  pub armed : Option ℕ
  pub ran : List ℕ

abbrev pub create : List ℕ → TimerQueue
create clock = record { timers = []; active_timers = []; clock = clock; armed = none; ran = [] }

abbrev pub now : TimerQueue → ℕ
now q = elim q.clock [ [] ↦ 0 | t ∷ _ ↦ t ]

-- The queue after a call of `TimeStamp::Now`.
abbrev pub ticked : TimerQueue → TimerQueue
ticked q = record q { clock = elim q.clock [ [] ↦ [] | _ ∷ l ↦ l ] }

-- The time at which a timer for `time` fires when it is set at `now`: after at least 100
-- microseconds.
abbrev pub fires : ℕ → ℕ → ℕ
fires now time = now + (if ltb (time - now) 100 then 100 else time - now)

unfoldable pub reset_timer_fd : ℕ → TimerQueue → TimerQueue
reset_timer_fd time q = record (ticked q) { armed = some (fires (now q) time) }

-- `emplace` of a set: an entry with the same key stays.
unfoldable pub emplace : Entry → List Entry → List Entry
emplace e [] = e ∷ []
emplace e (d ∷ l) =
    let below = d ∷ emplace e l in
    if lt_entry e d.at d.timer.address
    then e ∷ (d ∷ l)
    else if lt_entry d e.at e.timer.address
    then below
    else d ∷ l

abbrev pub is_earliest : ℕ → List Entry → Bool
is_earliest time [] = true
is_earliest time (e ∷ _) = ltb time e.at

-- `Insert`, and its result.
unfoldable pub insert : Timer → TimerQueue → TimerQueue × Bool
unfolding emplace
insert t q = (
  record q { timers = emplace (record { at = t.time; timer = t }) q.timers },
  is_earliest t.time q.timers,
)

unfoldable pub add_timer : Timer → TimerQueue → TimerQueue
unfolding insert reset_timer_fd
add_timer t q = let r = (insert t q).0 in if (insert t q).1 then reset_timer_fd t.time r else r

-- The entries before `lower_bound`, and those from there on.
unfoldable pub before : ℕ → ℕ → List Entry → List Entry
before time address [] = []
before time address (e ∷ l) =
    let more = before time address l in if lt_entry e time address then e ∷ more else []

unfoldable pub from : ℕ → ℕ → List Entry → List Entry
from time address [] = []
from time address (e ∷ l) =
    let more = from time address l in if lt_entry e time address then more else e ∷ l

abbrev pub uintptr_max : ℕ
uintptr_max = 2 ^ 64 - 1

unfoldable pub add_timers : List Timer → TimerQueue → TimerQueue
unfolding add_timer
add_timers [] q = q
add_timers (t ∷ ts) q = add_timers ts (add_timer t q)

-- The callbacks run in order. `adds` are the timers that the callback of a timer adds.
unfoldable pub run_timers : (Timer → List Timer) → List Entry → TimerQueue → TimerQueue
unfolding add_timers
run_timers adds [] q = q
run_timers adds (e ∷ l) q =
    run_timers adds l (add_timers (adds e.timer) (record q { ran = q.ran ++ e.timer.address ∷ [] }))

-- The loop of `ResetTimers`.
unfoldable pub reinsert : List Entry → TimerQueue → TimerQueue
unfolding insert restart
reinsert [] q = q
reinsert (e ∷ l) q =
    reinsert l (if e.timer.repeat then (insert (restart (now q) e.timer) (ticked q)).0 else q)

abbrev pub arm_first : List Entry → TimerQueue → TimerQueue
arm_first [] q = q
arm_first (e ∷ _) q = reset_timer_fd e.timer.time q

unfoldable pub reset_timers : TimerQueue → TimerQueue
unfolding reinsert reset_timer_fd
reset_timers q = let r = reinsert q.active_timers q in arm_first r.timers r

unfoldable pub handle_read : (Timer → List Timer) → TimerQueue → TimerQueue
unfolding before from run_timers reset_timers
handle_read adds q =
    let active = before (now q) uintptr_max q.timers in
    reset_timers (
      run_timers adds active
        (record (ticked q) { active_timers = active; timers = from (now q) uintptr_max q.timers }))
