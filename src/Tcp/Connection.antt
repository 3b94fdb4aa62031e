-- ===== src/Tcp/Connection.antt =====
-- mymuduo/tcp/Connection.cpp, inc/Connection.h. What the system answers comes from lists in the
-- state, an answer for each call: `writes` for `write`, `sendfiles` for `sendfile`, `reads` for
-- `readv`; an empty list stands for a socket that is full, or has no data. `stream` is what the
-- socket has taken so far. A callback of the user is noted in `calls` when it is called, and not
-- run. `none` is an assertion that fails. Addresses and logging are left out.
pub mod Files
pub mod Sending
pub mod Stream
pub mod Delivery
pub mod Interest
pub mod Frame
pub mod Closing
mod Tests
use c_cloud_storage.Prelude.{
  ℕ, suc, ◌+◌, ◌-◌, ◌*◌, min, Bool, true, false, not, ◌&&◌, ◌||◌, Option, none, some, List, [], ◌∷◌,
  ◌++◌, length, take, drop, ltb, leb, ◌==◌, if◌then◌else◌, Bytes, is_empty,
}
use c_cloud_storage.Tcp.Buffer
use c_cloud_storage.Tcp.Buffer.{
  Buffer, ReadResult, failed, filled, ◌>>=◌, append, retrieve, retrieve_all, read_fd,
  readable_bytes, peek_as_string,
}
use c_cloud_storage.Tcp.Channel
use c_cloud_storage.Tcp.Channel.{
  Channel, bind_callbacks, enable_reading, enable_writing, disable_writing, remove_channel,
  is_writing,
}
use c_cloud_storage.Http.Context.{HttpContext}

pub data ConnectionState : Type 0 where
  invalid handshaking connected closed failed_state : ConnectionState

pub data Callback : Type 0 where
  on_message delete_connection on_connection write_complete close error : Callback
  high_water_mark : ℕ → Callback

-- Which callbacks are set.
pub record Callbacks : Type 0 where
  pub message_set : Bool
  pub connection_set : Bool
  pub write_complete_set : Bool
  pub high_water_mark_set : Bool
  pub close_set : Bool
  pub error_set : Bool

-- `write`: the socket takes at most so many bytes, or it is full, or another error.
pub data WriteResult : Type 0 where
  room : ℕ → WriteResult
  would_block : WriteResult
  write_error : WriteResult

-- `sendfile`; when it would block, the bytes that a call of `pread` gives.
pub data SendfileResult : Type 0 where
  moved : ℕ → SendfileResult
  interrupted : SendfileResult
  again : ℕ → SendfileResult
  sendfile_error : SendfileResult

pub record Connection : Type 0 where
  pub fd : ℕ
  pub conn_id : ℕ
  pub state : ConnectionState
  pub last_active_time : ℕ
  pub channel : Channel
  pub read_buffer : Buffer
  pub send_buffer : Buffer
  pub callbacks : Callbacks
  pub high_water : ℕ
  pub context : Option HttpContext
  pub writes : List WriteResult
  pub sendfiles : List SendfileResult
  pub reads : List ReadResult
  pub stream : Bytes
  pub shut_wr : Bool
  pub calls : List Callback

abbrev pub create : ℕ → ℕ → ℕ → Connection
create fd conn_id now = record {
  fd = fd;
  conn_id = conn_id;
  state = invalid;
  last_active_time = now;
  channel = Channel.create fd;
  read_buffer = Buffer.create;
  send_buffer = Buffer.create;
  callbacks = record {
    message_set = false;
    connection_set = false;
    write_complete_set = false;
    high_water_mark_set = false;
    close_set = false;
    error_set = false;
  };
  high_water = 64 * 1024;
  context = none;
  writes = [];
  sendfiles = [];
  reads = [];
  stream = [];
  shut_wr = false;
  calls = [];
}

abbrev pub call : Bool → Callback → Connection → Connection
call set k c = record c { calls = if set then c.calls ++ k ∷ [] else c.calls }

abbrev pub with_channel : (Channel → Option Channel) → Connection → Option Connection
with_channel f c = elim (f c.channel) [ none ↦ none | some ch ↦ some (record c { channel = ch }) ]

abbrev pub is_connected : ConnectionState → Bool
is_connected connected = true
is_connected _ = false

abbrev pub is_closed : ConnectionState → Bool
is_closed closed = true
is_closed _ = false

unfoldable pub connection_destroyed : Connection → Option Connection
unfolding remove_channel
connection_destroyed c = with_channel remove_channel c

unfoldable pub connection_established : Connection → Option Connection
unfolding enable_reading
connection_established c = do
  d ←
      with_channel (enable_reading true)
        (record c { channel = bind_callbacks c.channel; state = connected })
  some (call d.callbacks.connection_set on_connection d)

-- `write` of a text: its first bytes are taken as far as there is room.
abbrev pub next_write : List WriteResult → WriteResult
next_write [] = would_block
next_write (w ∷ _) = w

abbrev pub rest {ℓ} : {A : Type ℓ} → List A → List A
rest [] = []
rest (_ ∷ l) = l

abbrev pub answered : Connection → Connection
answered c = record c { writes = rest c.writes }

abbrev pub taken : ℕ → Bytes → Connection → Connection
taken n msg c = record c { writes = rest c.writes; stream = c.stream ++ take n msg }

-- The connection with its new buffer; a full one is reported.
abbrev pub buffered : Buffer → Connection → Connection
buffered b c =
    call (c.callbacks.high_water_mark_set && leb c.high_water (readable_bytes b))
      (high_water_mark (readable_bytes b)) (record c { send_buffer = b })

abbrev pub watch_writing : Connection → Option Connection
watch_writing c = if is_writing c.channel then some c else with_channel (enable_writing true) c

-- The remaining bytes go to the buffer, and the channel waits until it can write.
unfoldable pub keep_remaining : Bytes → Connection → Option Connection
unfolding append enable_writing
keep_remaining msg c = do b ← append c.send_buffer msg; watch_writing (buffered b c)

unfoldable pub all_sent : Connection → Option Connection
unfolding disable_writing
all_sent c = do
  d ← with_channel disable_writing c
  some (call d.callbacks.write_complete_set write_complete d)

unfoldable pub send_remaining : Bytes → Connection → Option Connection
unfolding keep_remaining all_sent
send_remaining msg c = if is_empty msg then all_sent c else keep_remaining msg c

-- `Send` when the buffer is empty, by what `write` answers.
abbrev pub send_directly : WriteResult → Bytes → Connection → Option Connection
send_directly (room n) msg c =
    let k = min n (length msg) in send_remaining (drop k msg) (taken k msg c)
send_directly would_block msg c = send_remaining msg (answered c)
send_directly write_error msg c = some (answered c)

unfoldable pub send : Bytes → Connection → Option Connection
unfolding send_remaining
send msg c =
    if readable_bytes c.send_buffer == 0
    then send_directly (next_write c.writes) msg c
    else send_remaining msg c

-- `WriteNonBlocking` after `write` took `n` of the bytes in the buffer.
abbrev pub drop_written : ℕ → Buffer → Option Buffer
drop_written n b = if n == 0 then some b else retrieve b n

abbrev pub after_write : Bool → Connection → Option Connection
after_write done c = if done then all_sent c else some c

abbrev pub written : ℕ → Connection → Option Connection
written n c = do
  b ← drop_written n c.send_buffer
  after_write (readable_bytes c.send_buffer - n == 0) (record c { send_buffer = b })

abbrev pub write_buffer : WriteResult → Connection → Option Connection
write_buffer (room n) c =
    let pending = Buffer.peek_all_as_string c.send_buffer in
    let k = min n (readable_bytes c.send_buffer) in written k (taken k pending c)
write_buffer would_block c = some (answered c)
write_buffer write_error c = some (answered c)

unfoldable pub write_non_blocking : Connection → Option Connection
unfolding all_sent retrieve Buffer.peek_all_as_string
write_non_blocking c =
    if readable_bytes c.send_buffer == 0 then some c else write_buffer (next_write c.writes) c

unfoldable pub write : Connection → Option Connection
unfolding write_non_blocking
write c = if is_connected c.state then write_non_blocking c else some c

unfoldable pub handle_close : Connection → Connection
handle_close c =
    if is_closed c.state
    then c
    else (let d = record c { state = closed } in
        call true delete_connection (call d.callbacks.close_set close d))

abbrev pub handle_error : Connection → Connection
handle_error c = call c.callbacks.error_set error c

abbrev pub eintr : ℕ
eintr = 4

abbrev pub eagain : ℕ
eagain = 11

-- The loop of `ReadNonBlocking`, over the answers of `readv`. An empty answer is the end of the
-- stream.
unfoldable pub read_non_blocking : List ReadResult → Connection → Option Connection
unfolding read_fd handle_close
read_non_blocking [] c = some (record c { reads = [] })
read_non_blocking (failed errno ∷ more) c =
    let retry = read_non_blocking more c in
    let left = record c { reads = more } in
    if errno == eintr
    then retry
    else if errno == eagain
    then some left
    else some (handle_close left)
read_non_blocking (filled [] ∷ more) c = some (handle_close (record c { reads = more }))
read_non_blocking (filled (a ∷ s) ∷ more) c = do
  b ← read_fd c.read_buffer (filled (a ∷ s))
  read_non_blocking more (record c { read_buffer = b })

unfoldable pub read : Connection → Option Connection
unfolding retrieve_all read_non_blocking
read c =
    if is_connected c.state
    then read_non_blocking c.reads (record c { read_buffer = retrieve_all c.read_buffer })
    else some c

unfoldable pub handle_event : Connection → Option Connection
unfolding read
handle_event c = do d ← read c; some (call d.callbacks.message_set on_message d)

unfoldable pub shutdown : Connection → Connection
shutdown c =
    if is_connected c.state && (not (is_writing c.channel) && readable_bytes c.send_buffer == 0)
    then record c { shut_wr = true }
    else c

abbrev is_handshaking : ConnectionState → Bool
is_handshaking handshaking = true
is_handshaking _ = false

unfoldable pub force_close : Connection → Connection
unfolding handle_close
force_close c = if is_connected c.state || is_handshaking c.state then handle_close c else c

unfoldable pub set_send_buffer : Bytes → Connection → Option Connection
unfolding append retrieve_all
set_send_buffer text c = do
  b ← append (retrieve_all c.send_buffer) text
  some (record c { send_buffer = b })
