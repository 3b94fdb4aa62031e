-- ===== src/Tcp/Channel/Tests.antt =====
-- Runs of a channel, and its theorems at concrete inputs.
use c_cloud_storage.Prelude.{◌≡◌, refl, true, some, List, [], ◌∷◌}
use c_cloud_storage.Tcp.Channel
use c_cloud_storage.Tcp.Channel.{
  EventMask, no_events, Channel, Event, read_event, write_event, error_event, bind_callbacks,
  set_revents, handle_event, handle_event_with_guard, remove_channel, update_channel,
}
use c_cloud_storage.Tcp.Channel.Sync.{
  Op, read_on, write_on, write_off, run, asked, IsSynced, run-IsSynced,
}

handles :
    handle_event (
      set_revents
        (record no_events { epollin = true; epollout = true; epollerr = true; epollhup = true })
        (bind_callbacks (Channel.create 7)))
    ≡ some (error_event ∷ read_event ∷ write_event ∷ [])
unfolding handle_event
handles = refl

abbrev calls : List Op
calls = read_on true ∷ write_on true ∷ write_off ∷ []

run-IsSynced_example :
    (d : Channel) × (run calls (Channel.create 7) ≡ some d)
    × (d.events ≡ asked calls no_events)
    × IsSynced d
run-IsSynced_example = run-IsSynced calls (Channel.create 7) refl

abbrev watching : Channel
watching = record (Channel.create 7) {
  events = record no_events { epollin = true };
  in_epoll = true;
  registered = some (record no_events { epollin = true });
}
