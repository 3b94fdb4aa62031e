-- ===== src/TimerQueue/Order.antt =====
-- The timers stay in order, and the descriptor is set for the first of them.
use c_cloud_storage.Prelude.{
  ℕ, ◌≡◌, ◌≤◌, ◌+◌, refl, sym, subst, ap, ◌∙◌, Bool, true, false, Option, some, List, [], ◌∷◌, ◌++◌,
  ltb, if◌then◌else◌, arith,
}
use c_cloud_storage.TimerQueue.{
  Timer, Entry, TimerQueue, now, ticked, fires, lt_entry, reset_timer_fd, emplace, is_earliest,
  insert, add_timer, add_timers, before, from, uintptr_max, restart, run_timers, reinsert,
  arm_first, reset_timers, handle_read,
}
use c_cloud_storage.TimerQueue.Clock.{
  AllUpTo, now_le, ticked-AllUpTo, add_timer-AllUpTo, run_timers-AllUpTo, reinsert-AllUpTo,
}

abbrev pub Lt : Entry → Entry → Type 0
Lt e d = lt_entry e d.at d.timer.address ≡ true

abbrev pub AllAfter : Entry → List Entry → Type 0
AllAfter e [] = Unit {0}
AllAfter e (d ∷ l) = Lt e d × AllAfter e l

-- Each entry comes before all that follow, and carries the time of its timer.
abbrev pub IsSorted : List Entry → Type 0
IsSorted [] = Unit {0}
IsSorted (e ∷ l) = AllAfter e l × IsSorted l × (e.at ≡ e.timer.time)

Lt-trans : (e d c : Entry) → Lt e d → Lt d c → Lt e c
Lt-trans e d c h k = ground (arith, h, k)

AllAfter-trans : (e d : Entry) (l : List Entry) → Lt e d → AllAfter d l → AllAfter e l
AllAfter-trans e d [] h k = tt
AllAfter-trans e d (c ∷ l) h (k, more) = (Lt-trans e d c h k, AllAfter-trans e d l h more)

AllAfter-emplace : (d e : Entry) (l : List Entry) → Lt d e → AllAfter d l → AllAfter d (emplace e l)
unfolding emplace
AllAfter-emplace d e [] h k = (h, tt)
AllAfter-emplace d e (c ∷ l) h (k, more) =
    if_case (lt_entry e c.at c.timer.address) (lt_entry c e.at e.timer.address)
      (AllAfter-emplace d e l h more)
  where
    if_case :
        (a b : Bool)
        → AllAfter d (emplace e l)
        → AllAfter d (if a then e ∷ (c ∷ l) else if b then c ∷ emplace e l else c ∷ l)
    if_case true b g = (h, (k, more))
    if_case false true g = (k, g)
    if_case false false g = (k, more)

emplace-IsSorted :
    (e : Entry) (l : List Entry) → e.at ≡ e.timer.time → IsSorted l → IsSorted (emplace e l)
unfolding emplace
emplace-IsSorted e [] t h = (tt, tt, t)
emplace-IsSorted e (d ∷ l) t (after, sorted, same) =
    by_key (lt_entry e d.at d.timer.address) (lt_entry d e.at e.timer.address) refl refl
      (emplace-IsSorted e l t sorted)
  where
    by_key :
        (a b : Bool)
        → lt_entry e d.at d.timer.address ≡ a
        → lt_entry d e.at e.timer.address ≡ b
        → IsSorted (emplace e l)
        → IsSorted (if a then e ∷ (d ∷ l) else if b then d ∷ emplace e l else d ∷ l)
    by_key true b p q g = ((p, AllAfter-trans e d l p after), (after, sorted, same), t)
    by_key false true p q g = (AllAfter-emplace d e l q after, g, same)
    by_key false false p q g = (after, sorted, same)

from-IsSorted : (time address : ℕ) (l : List Entry) → IsSorted l → IsSorted (from time address l)
unfolding from
from-IsSorted time address [] h = tt
from-IsSorted time address (e ∷ l) (after, sorted, same) =
    either (lt_entry e time address) (from-IsSorted time address l sorted)
  where
    either :
        (b : Bool)
        → IsSorted (from time address l)
        → IsSorted (if b then from time address l else e ∷ l)
    either true g = g
    either false g = (after, sorted, same)

add_timer-timers :
    (t : Timer) (q : TimerQueue)
    → (add_timer t q).timers ≡ emplace (record { at = t.time; timer = t }) q.timers
unfolding add_timer insert reset_timer_fd
add_timer-timers t q = chosen (is_earliest t.time q.timers)
  where
    placed : TimerQueue
    placed = record q { timers = emplace (record { at = t.time; timer = t }) q.timers }

    chosen :
        (b : Bool) → (if b then reset_timer_fd t.time placed else placed).timers ≡ placed.timers
    chosen true = refl
    chosen false = refl

add_timer-IsSorted :
    (t : Timer) (q : TimerQueue) → IsSorted q.timers → IsSorted (add_timer t q).timers
add_timer-IsSorted t q h =
    subst IsSorted (sym (add_timer-timers t q))
      (emplace-IsSorted (record { at = t.time; timer = t }) q.timers refl h)

add_timers-IsSorted :
    (ts : List Timer) (q : TimerQueue) → IsSorted q.timers → IsSorted (add_timers ts q).timers
unfolding add_timers
add_timers-IsSorted [] q h = h
add_timers-IsSorted (t ∷ ts) q h = add_timers-IsSorted ts (add_timer t q) (add_timer-IsSorted t q h)

run_timers-IsSorted :
    (adds : Timer → List Timer) (l : List Entry) (q : TimerQueue)
    → IsSorted q.timers
    → IsSorted (run_timers adds l q).timers
unfolding run_timers
run_timers-IsSorted adds [] q h = h
run_timers-IsSorted adds (e ∷ l) q h =
    let r = record q { ran = q.ran ++ e.timer.address ∷ [] } in
    run_timers-IsSorted adds l (add_timers (adds e.timer) r)
      (add_timers-IsSorted (adds e.timer) r h)

reinsert-IsSorted :
    (l : List Entry) (q : TimerQueue) → IsSorted q.timers → IsSorted (reinsert l q).timers
unfolding reinsert insert
reinsert-IsSorted [] q h = h
reinsert-IsSorted (e ∷ l) q h =
    reinsert-IsSorted l
      (if e.timer.repeat then (insert (restart (now q) e.timer) (ticked q)).0 else q)
      (either e.timer.repeat)
  where
    either :
        (b : Bool)
        → IsSorted (if b then (insert (restart (now q) e.timer) (ticked q)).0 else q).timers
    either true =
        emplace-IsSorted
          (record { at = (restart (now q) e.timer).time; timer = restart (now q) e.timer }) q.timers
          refl h
    either false = h

abbrev pub later_of : ℕ → ℕ → ℕ
later_of a b = if ltb a b then b else a

-- A descriptor that was set at `n` fires at the time it is set for, but not within 100 microseconds.
fires_lem : (n time : ℕ) → fires n time ≡ later_of time (n + 100)
fires_lem n time = ground arith

-- The descriptor is set for the time of the first timer, or for 100 microseconds after a moment that
-- is at most `last`, if that is later.
abbrev pub IsArmed : ℕ → List Entry → Option ℕ → Type 0
IsArmed last [] armed = Unit {0}
IsArmed last (e ∷ l) armed = (n : ℕ) × (n ≤ last) × (armed ≡ some (later_of e.at (n + 100)))

abbrev pub IsKept : ℕ → TimerQueue → Type 0
IsKept last q = IsSorted q.timers × IsArmed last q.timers q.armed × AllUpTo last q.clock

armed_first :
    (last : ℕ) (l : List Entry) (r : TimerQueue)
    → r.timers ≡ l
    → IsSorted l
    → AllUpTo last r.clock
    → IsKept last (arm_first l r)
unfolding reset_timer_fd
armed_first last [] r e h k =
    (subst IsSorted (sym e) h, subst (λ l. IsArmed last l r.armed) (sym e) tt, k)
armed_first last (d ∷ l) r e (after, sorted, same) k = (
  subst IsSorted (sym e) (after, sorted, same),
  subst (λ l. IsArmed last l (some (fires (now r) d.timer.time))) (sym e)
      (
        now r,
        now_le last r k,
        ap some (fires_lem (now r) d.timer.time)
            ∙ ap (λ t. some (later_of t (now r + 100))) (sym same),
      ),
  ticked-AllUpTo last r k,
)

handle_read-IsKept :
    (last : ℕ) (adds : Timer → List Timer) (q : TimerQueue)
    → IsKept last q
    → IsKept last (handle_read adds q)
unfolding handle_read reset_timers
handle_read-IsKept last adds q (sorted, armed, clocked) =
    let active = before (now q) uintptr_max q.timers in
    let start = record (ticked q) {
      active_timers = active;
      timers = from (now q) uintptr_max q.timers;
    } in
    let after = run_timers adds active start in
    let r = reinsert after.active_timers after in
    armed_first last r.timers r refl
      (reinsert-IsSorted after.active_timers after
        (run_timers-IsSorted adds active start (from-IsSorted (now q) uintptr_max q.timers sorted)))
      (reinsert-AllUpTo last after.active_timers after
        (run_timers-AllUpTo last adds active start (ticked-AllUpTo last q clocked)))

same_time : (e d : Entry) → Lt e d → ltb e.at d.at ≡ false → d.at ≡ e.at
same_time e d h k = ground (arith, h, k)

not_earlier : (e d : Entry) → lt_entry e d.at d.timer.address ≡ false → ltb e.at d.at ≡ false
not_earlier e d h = ground (arith, h)

-- A new entry: the descriptor is set again if it is the earliest.
emplace-IsArmed :
    (last n : ℕ) (e : Entry) (l : List Entry) (armed : Option ℕ)
    → n ≤ last
    → IsArmed last l armed
    → IsArmed last (emplace e l) (if is_earliest e.at l then some (fires n e.at) else armed)
unfolding emplace
emplace-IsArmed last n e [] armed late h = (n, late, ap some (fires_lem n e.at))
emplace-IsArmed last n e (d ∷ l) armed late (m, early, was) =
    by_key (lt_entry e d.at d.timer.address) (lt_entry d e.at e.timer.address) (ltb e.at d.at) refl
      refl
  where
    by_key :
        (a b c : Bool)
        → lt_entry e d.at d.timer.address ≡ a
        → ltb e.at d.at ≡ c
        → IsArmed last
            (if a then e ∷ (d ∷ l) else if b then d ∷ emplace e l else d ∷ l)
            (if c then some (fires n e.at) else armed)
    by_key true b true p q = (n, late, ap some (fires_lem n e.at))
    by_key true b false p q =
        (m, early, was ∙ ap (λ t. some (later_of t (m + 100))) (same_time e d p q))
    by_key false b true p q = absurd (ground (arith, not_earlier e d p, q))
    by_key false true false p q = (m, early, was)
    by_key false false false p q = (m, early, was)

add_timer-IsArmed :
    (last : ℕ) (t : Timer) (q : TimerQueue)
    → now q ≤ last
    → IsArmed last q.timers q.armed
    → IsArmed last (add_timer t q).timers (add_timer t q).armed
unfolding add_timer insert reset_timer_fd
add_timer-IsArmed last t q late h =
    chosen (is_earliest t.time q.timers)
      (emplace-IsArmed last (now q) (record { at = t.time; timer = t }) q.timers q.armed late h)
  where
    placed : TimerQueue
    placed = record q { timers = emplace (record { at = t.time; timer = t }) q.timers }

    chosen :
        (b : Bool)
        → IsArmed last placed.timers (if b then some (fires (now q) t.time) else q.armed)
        → IsArmed last
            (if b then reset_timer_fd t.time placed else placed).timers
            (if b then reset_timer_fd t.time placed else placed).armed
    chosen true g = g
    chosen false g = g

add_timer-IsKept :
    (last : ℕ) (t : Timer) (q : TimerQueue) → IsKept last q → IsKept last (add_timer t q)
add_timer-IsKept last t q (sorted, armed, clocked) = (
  add_timer-IsSorted t q sorted,
  add_timer-IsArmed last t q (now_le last q clocked) armed,
  add_timer-AllUpTo last t q clocked,
)

-- What happens to the queue.
pub data Op : Type 0 where
  adds_timer : Timer → Op
  reads : Op

abbrev pub apply : (Timer → List Timer) → Op → TimerQueue → TimerQueue
apply adds (adds_timer t) q = add_timer t q
apply adds reads q = handle_read adds q

unfoldable pub run : (Timer → List Timer) → List Op → TimerQueue → TimerQueue
unfolding add_timer handle_read
run adds [] q = q
run adds (o ∷ os) q = run adds os (apply adds o q)

apply-IsKept :
    (last : ℕ) (adds : Timer → List Timer) (o : Op) (q : TimerQueue)
    → IsKept last q
    → IsKept last (apply adds o q)
apply-IsKept last adds (adds_timer t) q h = add_timer-IsKept last t q h
apply-IsKept last adds reads q h = handle_read-IsKept last adds q h

-- Whatever timers are added and whenever the descriptor is read, and whatever timers the callbacks
-- add, as long as the clock never answers with a time after `last`: the timers are in the order of
-- their times and addresses, none twice, and while there are any, the descriptor is set for the
-- time of the first of them or, if that is later, for 100 microseconds after some moment that is not
-- after `last`.
pub run-IsKept :
    (last : ℕ) (adds : Timer → List Timer) (os : List Op) (q : TimerQueue)
    → IsKept last q
    → IsKept last (run adds os q)
unfolding run
run-IsKept last adds [] q h = h
run-IsKept last adds (o ∷ os) q h =
    run-IsKept last adds os (apply adds o q) (apply-IsKept last adds o q h)
