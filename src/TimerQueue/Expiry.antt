-- ===== src/TimerQueue/Expiry.antt =====
-- Which callbacks run when the descriptor of the timers is read.
use c_cloud_storage.Prelude.{
  ℕ, ◌<◌, ◌≡◌, refl, sym, ap, ◌∙◌, Bool, true, false, List, [], ◌∷◌, ◌++◌, append-nil, append_assoc,
  leb, if◌then◌else◌, if_then, if_else, arith,
}
use c_cloud_storage.TimerQueue.{
  Timer, Entry, TimerQueue, now, ticked, lt_entry, reset_timer_fd, insert, add_timer, add_timers,
  before, from, uintptr_max, restart, run_timers, reinsert, arm_first, reset_timers, handle_read,
  is_earliest,
}
use c_cloud_storage.TimerQueue.Order.{AllAfter, IsSorted}

-- The timers whose time has come, in the order of the list.
abbrev pub due : ℕ → List Entry → List ℕ
due n [] = []
due n (e ∷ l) = if leb e.at n then e.timer.address ∷ due n l else due n l

-- Addresses are below the greatest one.
abbrev pub AreAddresses : List Entry → Type 0
AreAddresses [] = Unit {0}
AreAddresses (e ∷ l) = (e.timer.address < uintptr_max) × AreAddresses l

abbrev addresses : List Entry → List ℕ
addresses [] = []
addresses (e ∷ l) = e.timer.address ∷ addresses l

none_due : (n : ℕ) (e : Entry) (l : List Entry) → leb e.at n ≡ false → AllAfter e l → due n l ≡ []
none_due n e [] h k = refl
none_due n e (d ∷ l) h (lt, more) =
    if_else {b = leb d.at n} _ _ (ground (arith, h, lt)) ∙ none_due n e l h more

before-due :
    (n : ℕ) (l : List Entry)
    → IsSorted l
    → AreAddresses l
    → addresses (before n uintptr_max l) ≡ due n l
unfolding before
before-due n [] h a = refl
before-due n (e ∷ l) (after, sorted, same) (small, smalls) =
    by_time (leb e.at n) refl (before-due n l sorted smalls)
  where
    by_time :
        (b : Bool)
        → leb e.at n ≡ b
        → addresses (before n uintptr_max l) ≡ due n l
        → addresses (if lt_entry e n uintptr_max then e ∷ before n uintptr_max l else [])
          ≡ (if leb e.at n then e.timer.address ∷ due n l else due n l)
    by_time true p g =
        ap addresses (if_then {b = lt_entry e n uintptr_max} _ _ (ground (arith, p, small)))
        ∙ ap (◌∷◌ e.timer.address) g
        ∙ sym (if_then _ _ p)
    by_time false p g =
        ap addresses (if_else {b = lt_entry e n uintptr_max} _ _ (ground (arith, p)))
        ∙ sym (none_due n e l p after)
        ∙ sym (if_else _ _ p)

add_timer-ran : (t : Timer) (q : TimerQueue) → (add_timer t q).ran ≡ q.ran
unfolding add_timer insert reset_timer_fd
add_timer-ran t q = chosen (is_earliest t.time q.timers)
  where
    chosen :
        (b : Bool)
        → (if b then reset_timer_fd t.time (insert t q).0 else (insert t q).0).ran ≡ q.ran
    chosen true = refl
    chosen false = refl

add_timers-ran : (ts : List Timer) (q : TimerQueue) → (add_timers ts q).ran ≡ q.ran
unfolding add_timers
add_timers-ran [] q = refl
add_timers-ran (t ∷ ts) q = add_timers-ran ts (add_timer t q) ∙ add_timer-ran t q

run_timers-ran :
    (adds : Timer → List Timer) (l : List Entry) (q : TimerQueue)
    → (run_timers adds l q).ran ≡ q.ran ++ addresses l
unfolding run_timers
run_timers-ran adds [] q = sym (append-nil q.ran)
run_timers-ran adds (e ∷ l) q =
    let r = record q { ran = q.ran ++ e.timer.address ∷ [] } in
    run_timers-ran adds l (add_timers (adds e.timer) r)
    ∙ ap (λ k. k ++ addresses l) (add_timers-ran (adds e.timer) r)
    ∙ append_assoc q.ran (e.timer.address ∷ []) (addresses l)

reinsert-ran : (l : List Entry) (q : TimerQueue) → (reinsert l q).ran ≡ q.ran
unfolding reinsert insert
reinsert-ran [] q = refl
reinsert-ran (e ∷ l) q =
    reinsert-ran l (if e.timer.repeat then (insert (restart (now q) e.timer) (ticked q)).0 else q)
    ∙ either e.timer.repeat
  where
    either :
        (b : Bool) → (if b then (insert (restart (now q) e.timer) (ticked q)).0 else q).ran ≡ q.ran
    either true = refl
    either false = refl

arm_first-ran : (l : List Entry) (q : TimerQueue) → (arm_first l q).ran ≡ q.ran
unfolding reset_timer_fd
arm_first-ran [] q = refl
arm_first-ran (e ∷ l) q = refl

reset_timers-ran : (q : TimerQueue) → (reset_timers q).ran ≡ q.ran
unfolding reset_timers
reset_timers-ran q =
    let r = reinsert q.active_timers q in arm_first-ran r.timers r ∙ reinsert-ran q.active_timers q

-- When the descriptor is read, the callbacks that run are those of the timers whose time is now or
-- earlier, each once and in the order of their times, and no other, whatever timers the callbacks
-- add. The timers are in order and their addresses are below the greatest one.
pub handle_read-ran :
    (adds : Timer → List Timer) (q : TimerQueue)
    → IsSorted q.timers
    → AreAddresses q.timers
    → (handle_read adds q).ran ≡ q.ran ++ due (now q) q.timers
unfolding handle_read
handle_read-ran adds q sorted small =
    let active = before (now q) uintptr_max q.timers in
    let start = record (ticked q) {
      active_timers = active;
      timers = from (now q) uintptr_max q.timers;
    } in
    reset_timers-ran (run_timers adds active start)
    ∙ run_timers-ran adds active start
    ∙ ap (◌++◌ q.ran) (before-due (now q) q.timers sorted small)
