-- ===== src/Tcp/Connection/Tests.antt =====
-- The theorems on connections, at concrete inputs.
use c_cloud_storage.Prelude.{
  ℕ, ◌≤◌, ◌≡◌, refl, true, some, List, [], ◌∷◌, ◌++◌, Bytes, arith, take, drop,
}
use c_cloud_storage.Tcp.Buffer.Queue.{create-IsValid}
use c_cloud_storage.Tcp.Buffer
use c_cloud_storage.Tcp.Buffer.{Buffer, readable_bytes, peek_all_as_string, filled, retrieve_all}
use c_cloud_storage.Tcp.Connection
use c_cloud_storage.Tcp.Connection.{
  Connection, connected, closed, is_closed, room, would_block, moved, interrupted, send,
  handle_event, handle_close, read, read_non_blocking, shutdown, set_send_buffer, force_close,
  delete_connection, on_message,
}
use c_cloud_storage.Tcp.Connection.Files.{send_file_range_loop, send_file_range}
use c_cloud_storage.Tcp.Connection.Sending.{IsReady, backlog}
use c_cloud_storage.Tcp.Connection.Stream.{Act, sends, writable, run, sent, run_stream}
use c_cloud_storage.Tcp.Connection.Interest.{IsWatched, run-IsWatched}
use c_cloud_storage.Tcp.Connection.Delivery.{send_file_range_prefix}
use c_cloud_storage.Tcp.Connection.Closing.{
  IsOnce, here, next, handles_event, forces_close, Reach-IsOnce,
}

abbrev opened : Connection
opened = record (Connection.create 5 1 0) { state = connected }

-- A socket that takes two bytes, then is full, then has room.
abbrev narrow : Connection
narrow = record opened { writes = room 2 ∷ would_block ∷ room 100 ∷ [] }

narrow-IsReady : IsReady narrow
narrow-IsReady = record { valid = create-IsValid; synced = refl; answers = tt }

abbrev acts : List Act
acts = sends (104 ∷ 101 ∷ 121 ∷ []) ∷ writable ∷ sends (33 ∷ []) ∷ writable ∷ []

run_stream_example :
    (d : Connection) × (run acts narrow ≡ some d)
    × IsReady d
    × (backlog d ≡ backlog narrow ++ sent acts)
unfolding Buffer.create
run_stream_example = run_stream acts narrow narrow-IsReady (omega arith)

run-IsWatched_example : (d : Connection) × (run acts narrow ≡ some d) × IsWatched d
unfolding Buffer.create
run-IsWatched_example =
    run-IsWatched acts narrow narrow-IsReady (omega arith) (refl, (refl, tt))
      (λ h. absurd (omega arith))

abbrev file : Bytes
file = 1 ∷ 2 ∷ 3 ∷ 4 ∷ []

abbrev ranged : Connection
ranged = record opened { sendfiles = moved 1 ∷ interrupted ∷ moved 1 ∷ [] }

ranged-IsReady : IsReady ranged
ranged-IsReady = record { valid = create-IsValid; synced = refl; answers = tt }

send_file_range_prefix_example :
    (j : ℕ) × (j ≤ 2)
    × (backlog (record ranged { sendfiles = []; stream = 2 ∷ 3 ∷ [] })
        ≡ backlog ranged ++ take j (drop 1 file))
unfolding Buffer.create send_file_range send_file_range_loop peek_all_as_string Buffer.slice
send_file_range_prefix_example =
    send_file_range_prefix file 1 2 ranged (record ranged { sendfiles = []; stream = 2 ∷ 3 ∷ [] })
      ranged-IsReady refl (omega arith) refl

-- The peer closes, and the server closes too.
abbrev hung_up : Connection
hung_up = record opened { reads = filled [] ∷ [] }

abbrev told : Connection
told = record opened { state = closed; calls = delete_connection ∷ [] }

ends : handle_event hung_up ≡ some told
unfolding handle_event read read_non_blocking handle_close retrieve_all Buffer.create
ends = refl

Reach-IsOnce_example : IsOnce told × (is_closed hung_up.state ≡ true → is_closed told.state ≡ true)
unfolding force_close
Reach-IsOnce_example =
    Reach-IsOnce hung_up told refl (next (next here (handles_event ends)) (forces_close refl))
