-- ===== src/Tcp/Channel/Sync.antt =====
-- The kernel watches what the channel asks for.
use c_cloud_storage.Prelude.{
  ◌≡◌, refl, sym, subst, ap, ◌∙◌, Bool, true, false, Option, none, some, List, [], ◌∷◌, arith, ◌||◌,
  if◌then◌else◌,
}
use c_cloud_storage.Tcp.Buffer.{◌>>=◌}
use c_cloud_storage.Tcp.Channel.{
  EventMask, no_events, Channel, map_channel, set_in, update_channel, remove_channel,
  enable_reading, enable_writing, disable_writing, disable_reading, disable_all,
}

pub data Op : Type 0 where
  read_on write_on : Bool → Op
  read_off write_off all_off : Op

unfoldable pub apply : Op → Channel → Option Channel
unfolding enable_reading enable_writing disable_writing disable_reading disable_all
apply (read_on et) c = enable_reading et c
apply (write_on et) c = enable_writing et c
apply read_off c = disable_reading c
apply write_off c = disable_writing c
apply all_off c = disable_all c

unfoldable pub run : List Op → Channel → Option Channel
unfolding apply
run [] c = some c
run (o ∷ os) c = do d ← apply o c; run os d

-- The registration in the kernel of a channel that is in epoll is the channel's mask.
abbrev pub watched : Channel → Option EventMask
watched c = if c.in_epoll then some c.events else none

abbrev pub IsSynced : Channel → Type 0
IsSynced c = c.registered ≡ watched c

abbrev is_some : Option EventMask → Bool
is_some none = false
is_some (some _) = true

-- The channel and the kernel agree on whether the descriptor is watched.
abbrev pub IsKnown : Channel → Type 0
IsKnown c = c.in_epoll ≡ is_some c.registered

abbrev pub updated : Channel → Channel
updated c = record c { in_epoll = true; registered = some c.events }

update_at :
    (c : Channel) (b : Bool) (o : Option EventMask)
    → c.in_epoll ≡ b
    → c.registered ≡ o
    → b ≡ is_some o
    → update_channel c ≡ some (updated c)
unfolding update_channel
update_at c true none e f h = cc
update_at c true (some m) e f h = ground arith
update_at c false none e f h = ground arith
update_at c false (some m) e f h = cc

pub update_channel_lem : (c : Channel) → IsKnown c → update_channel c ≡ some (updated c)
update_channel_lem c h = update_at c c.in_epoll c.registered refl refl h

-- The masks that the calls ask for, the last of them.
abbrev pub asks : Op → EventMask → EventMask
asks (read_on et) m = record m { epollin = true; epollet = et || m.epollet }
asks (write_on et) m = record m { epollout = true; epollet = et || m.epollet }
asks read_off m = record m { epollin = false }
asks write_off m = record m { epollout = false }
asks all_off m = no_events

abbrev pub set_events : EventMask → Channel → Channel
set_events m c = record c { events = m }

known_at : (b : Bool) (m : EventMask) → b ≡ is_some (if b then some m else none)
known_at true m = refl
known_at false m = refl

IsSynced-IsKnown : (c : Channel) → IsSynced c → IsKnown c
IsSynced-IsKnown c h = known_at c.in_epoll c.events ∙ ap is_some (sym h)

set_lem :
    (m : EventMask) (c : Channel)
    → IsSynced c
    → update_channel (set_events m c) ≡ some (updated (set_events m c))
set_lem m c h = update_channel_lem (set_events m c) (IsSynced-IsKnown c h)

enabled :
    (m : EventMask) (c : Channel)
    → IsSynced c
    → map_channel set_in (update_channel (set_events m c)) ≡ some (updated (set_events m c))
enabled m c h = ap (map_channel set_in) (set_lem m c h)

pub apply_lem :
    (o : Op) (c : Channel)
    → IsSynced c
    → apply o c ≡ some (updated (set_events (asks o c.events) c))
unfolding apply enable_reading enable_writing disable_writing disable_reading disable_all
apply_lem (read_on et) c h = enabled (asks (read_on et) c.events) c h
apply_lem (write_on et) c h = enabled (asks (write_on et) c.events) c h
apply_lem read_off c h = set_lem (asks read_off c.events) c h
apply_lem write_off c h = set_lem (asks write_off c.events) c h
apply_lem all_off c h = set_lem no_events c h

-- The masks that the calls ask for, one after the other.
abbrev pub asked : List Op → EventMask → EventMask
asked [] m = m
asked (o ∷ os) m = asked os (asks o m)

-- Whatever calls are made, the kernel watches the mask that the channel has.
abbrev pub result : List Op → Channel → Channel
result [] c = c
result (o ∷ os) c = result os (updated (set_events (asks o c.events) c))

run-result : (os : List Op) (c : Channel) → IsSynced c → run os c ≡ some (result os c)
unfolding run
run-result [] c h = refl
run-result (o ∷ os) c h =
    ap (λ d. d >>= run os) (apply_lem o c h)
    ∙ run-result os (updated (set_events (asks o c.events) c)) refl

result_events : (os : List Op) (c : Channel) → (result os c).events ≡ asked os c.events
result_events [] c = refl
result_events (o ∷ os) c = result_events os (updated (set_events (asks o c.events) c))

result-IsSynced : (os : List Op) (c : Channel) → IsSynced c → IsSynced (result os c)
result-IsSynced [] c h = h
result-IsSynced (o ∷ os) c h = result-IsSynced os (updated (set_events (asks o c.events) c)) refl

-- Any calls that switch events on and off, on a channel whose mask is what the kernel watches,
-- succeed: no call of `epoll_ctl` fails. The mask is then the one that the calls ask for, and the
-- kernel watches it, if the channel is in epoll at all.
pub run-IsSynced :
    (os : List Op) (c : Channel)
    → IsSynced c
    → (d : Channel) × (run os c ≡ some d) × (d.events ≡ asked os c.events) × IsSynced d
run-IsSynced os c h = (result os c, run-result os c h, result_events os c, result-IsSynced os c h)

removed_at :
    (c : Channel) (o : Option EventMask)
    → c.registered ≡ o
    → c.in_epoll ≡ true
    → o ≡ some c.events
    → remove_channel c ≡ some (record c { registered = none })
unfolding remove_channel
removed_at c none e f h = cc
removed_at c (some m) e f h = ground arith

synced_in : (b : Bool) (m : EventMask) → b ≡ true → (if b then some m else none) ≡ some m
synced_in true m e = refl
synced_in false m e = cc

gone_lem :
    (m : EventMask) (d : Channel)
    → d.in_epoll ≡ true
    → d.registered ≡ none
    → update_channel (set_events m d) ≡ none
unfolding update_channel
gone_lem m d e f = ground arith

apply_gone : (o : Op) (d : Channel) → d.in_epoll ≡ true → d.registered ≡ none → apply o d ≡ none
unfolding apply enable_reading enable_writing disable_writing disable_reading disable_all
apply_gone (read_on et) d e f =
    ap (map_channel set_in) (gone_lem (asks (read_on et) d.events) d e f)
apply_gone (write_on et) d e f =
    ap (map_channel set_in) (gone_lem (asks (write_on et) d.events) d e f)
apply_gone read_off d e f = gone_lem (asks read_off d.events) d e f
apply_gone write_off d e f = gone_lem (asks write_off d.events) d e f
apply_gone all_off d e f = gone_lem no_events d e f

abbrev from_some : Channel → Option Channel → Channel
from_some c none = c
from_some c (some d) = d

-- After `removeChannel` the channel still says that it is in epoll: the next call that switches an
-- event on or off asks the kernel to change a descriptor that it does not watch, and the program
-- ends at an assertion.
remove_channel-apply :
    (o : Op) (c d : Channel)
    → IsSynced c
    → c.in_epoll ≡ true
    → remove_channel c ≡ some d
    → apply o d ≡ none
remove_channel-apply o c d h e r =
    let removed = removed_at c c.registered refl e (h ∙ synced_in c.in_epoll c.events e) in
    let same : record c { registered = none } ≡ d = ap (from_some c) (sym removed ∙ r) in
    subst (λ d'. apply o d' ≡ none) same (apply_gone o (record c { registered = none }) e refl)
