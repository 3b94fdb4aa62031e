-- ===== src/Tcp/Channel.antt =====
-- mymuduo/tcp/Channel.cpp, inc/Channel.h, and `updateChannel` and `removeChannel` of
-- mymuduo/tcp/Epoll.cpp. A mask is its bits by name. `registered` is what the kernel watches for
-- the descriptor: `epoll_ctl` adds only a descriptor that is not there, and changes or removes only
-- one that is; `none` is the assertion of `errif` when it fails. A callback that is called is
-- noted, in order, and not run.
pub mod Sync
mod Tests
use c_cloud_storage.Prelude.{
  ℕ, Bool, true, false, not, ◌&&◌, ◌||◌, Option, none, some, List, [], ◌∷◌, ◌++◌, if◌then◌else◌,
}

pub record EventMask : Type 0 where
  pub epollin : Bool
  pub epollpri : Bool
  pub epollout : Bool
  pub epollerr : Bool
  pub epollhup : Bool
  pub epollrdhup : Bool
  pub epollet : Bool

abbrev pub no_events : EventMask
no_events = record {
  epollin = false;
  epollpri = false;
  epollout = false;
  epollerr = false;
  epollhup = false;
  epollrdhup = false;
  epollet = false;
}

pub record Channel : Type 0 where
  pub fd : ℕ
  pub events : EventMask
  pub revents : EventMask
  pub in_epoll : Bool
  pub read_callback : Bool
  pub write_callback : Bool
  pub close_callback : Bool
  pub error_callback : Bool
  pub tied : Bool
  pub registered : Option EventMask

abbrev pub create : ℕ → Channel
create fd = record {
  fd = fd;
  events = no_events;
  revents = no_events;
  in_epoll = false;
  read_callback = false;
  write_callback = false;
  close_callback = false;
  error_callback = false;
  tied = false;
  registered = none;
}

-- `EPOLL_CTL_ADD`, `EPOLL_CTL_MOD` and `EPOLL_CTL_DEL`
abbrev epoll_add : Channel → Option Channel
epoll_add c = elim c.registered [
  | none ↦ some (record c { registered = some c.events })
  | some _ ↦ none
]

abbrev epoll_modify : Channel → Option Channel
epoll_modify c = elim c.registered [
  | none ↦ none
  | some _ ↦ some (record c { registered = some c.events })
]

abbrev epoll_delete : Channel → Option Channel
epoll_delete c = elim c.registered [ none ↦ none | some _ ↦ some (record c { registered = none }) ]

abbrev pub set_in_epoll : Channel → Channel
set_in_epoll c = if c.in_epoll then c else record c { in_epoll = true }

abbrev pub map_channel : (Channel → Channel) → Option Channel → Option Channel
map_channel f none = none
map_channel f (some c) = some (f c)

unfoldable pub update_channel : Channel → Option Channel
update_channel c = if c.in_epoll then epoll_modify c else map_channel set_in_epoll (epoll_add c)

-- `in_epoll` is not reset.
unfoldable pub remove_channel : Channel → Option Channel
remove_channel c = if c.in_epoll then epoll_delete c else some c

abbrev pub set_in : Channel → Channel
set_in c = record c { in_epoll = true }

unfoldable pub enable_reading : Bool → Channel → Option Channel
unfolding update_channel
enable_reading et c = map_channel set_in (
    update_channel
      (record c { events = record c.events { epollin = true; epollet = et || c.events.epollet } }))

unfoldable pub enable_writing : Bool → Channel → Option Channel
unfolding update_channel
enable_writing et c = map_channel set_in (
    update_channel
      (record c { events = record c.events { epollout = true; epollet = et || c.events.epollet } }))

unfoldable pub disable_writing : Channel → Option Channel
unfolding update_channel
disable_writing c = update_channel (record c { events = record c.events { epollout = false } })

unfoldable pub disable_reading : Channel → Option Channel
unfolding update_channel
disable_reading c = update_channel (record c { events = record c.events { epollin = false } })

unfoldable pub disable_all : Channel → Option Channel
unfolding update_channel
disable_all c = update_channel (record c { events = no_events })

abbrev pub is_writing : Channel → Bool
is_writing c = c.events.epollout

abbrev pub set_revents : EventMask → Channel → Channel
set_revents m c = record c { revents = m }

-- All four callbacks are set, and the channel is tied to its connection.
abbrev pub bind_callbacks : Channel → Channel
bind_callbacks c = record c {
  read_callback = true;
  write_callback = true;
  close_callback = true;
  error_callback = true;
  tied = true;
}

pub data Event : Type 0 where
  close_event error_event read_event write_event : Event

abbrev when : Bool → Event → List Event
when b e = if b then e ∷ [] else []

-- The callbacks that are called for what happened, in order.
unfoldable pub handle_event_with_guard : Channel → List Event
handle_event_with_guard c =
    when (c.revents.epollhup && not c.revents.epollin && c.close_callback) close_event
    ++ (when (c.revents.epollerr && c.error_callback) error_event
        ++ (when
              ((c.revents.epollin || (c.revents.epollpri || c.revents.epollrdhup))
                && c.read_callback)
              read_event
            ++ when (c.revents.epollout && c.write_callback) write_event))

-- The assertion that a read callback is set. A tied object that is gone is not noticed.
unfoldable pub handle_event : Channel → Option (List Event)
unfolding handle_event_with_guard
handle_event c = if c.read_callback then some (handle_event_with_guard c) else none
