-- ===== src/Tcp/Connection/Frame.antt =====
-- What sending leaves alone: the state of the connection, its read buffer, its context, its
-- time, and how often the server was told to delete it.
use c_cloud_storage.Prelude.{
  ℕ, ◌+◌, ◌-◌, ◌≡◌, refl, ◌∙◌, min, Bool, true, false, Option, none, some, List, [], ◌∷◌, ◌++◌,
  length, take, drop, ltb, ◌==◌, if◌then◌else◌, Bytes, arith,
}
use c_cloud_storage.Prelude.Number.{ℤ, to_size}
use c_cloud_storage.Tcp.Buffer.{◌>>=◌, append, readable_bytes, peek_all_as_string}
use c_cloud_storage.Tcp.Channel.{Channel, is_writing, enable_writing, disable_writing}
use c_cloud_storage.Tcp.Connection.{
  Connection, Callback, delete_connection, write_complete, high_water_mark, call, with_channel,
  WriteResult, room, would_block, write_error, next_write, answered, taken, buffered, watch_writing,
  keep_remaining, all_sent, send_remaining, send_directly, send, drop_written, after_write,
  write_buffer, write_non_blocking, write, is_connected, SendfileResult, moved, interrupted, again,
  sendfile_error,
}
use c_cloud_storage.Tcp.Connection.Files.{
  movable, moved_bytes, answers_left, send_file_loop, send_file, read_and_send,
  send_file_range_loop, send_file_range,
}

abbrev pub deletion : Callback → ℕ
deletion delete_connection = 1
deletion _ = 0

-- How often the server was told to delete the connection.
abbrev pub deletions : List Callback → ℕ
deletions [] = 0
deletions (k ∷ l) = deletion k + deletions l

pub deletions-append :
    (l : List Callback) (k : Callback) → deletions (l ++ k ∷ []) ≡ deletions l + deletion k
deletions-append [] k = omega arith
deletions-append (j ∷ l) k = omega (arith, deletions-append l k)

abbrev pub Framed : Connection → Connection → Type 0
Framed c d =
    (d.read_buffer ≡ c.read_buffer)
    × (d.state ≡ c.state)
    × (d.context ≡ c.context)
    × (deletions d.calls ≡ deletions c.calls)
    × (d.last_active_time ≡ c.last_active_time)

abbrev pub OnSome {ℓ} : {A : Type ℓ} → (A → Type 0) → Option A → Type 0
OnSome P none = Unit {0}
OnSome P (some a) = P a

Framed-refl : (c : Connection) → Framed c c
Framed-refl c = (refl, refl, refl, refl, refl)

OnSome-bind {ℓ} :
    {A : Type ℓ} (c : Connection) (o : Option A) (f : A → Option Connection)
    → ((a : A) → OnSome (Framed c) (f a))
    → OnSome (Framed c) (o >>= f)
OnSome-bind c none f h = tt
OnSome-bind c (some a) f h = h a

Framed-then :
    (c : Connection) (o : Option Connection) (f : Connection → Option Connection)
    → OnSome (Framed c) o
    → ((d : Connection) → OnSome (Framed d) (f d))
    → OnSome (Framed c) (o >>= f)
Framed-then c none f h k = tt
Framed-then c (some d) f h k = follow (f d) (k d)
  where
    follow : (o : Option Connection) → OnSome (Framed d) o → OnSome (Framed c) o
    follow none g = tt
    follow (some e) (a, b, x, y, z) = (a ∙ h.0, b ∙ h.1, x ∙ h.2, y ∙ h.3, z ∙ h.4)

with_channel-Framed :
    (f : Channel → Option Channel) (c : Connection) → OnSome (Framed c) (with_channel f c)
with_channel-Framed f c = at (f c.channel)
  where
    at :
        (o : Option Channel)
        → OnSome (Framed c) (elim o [ none ↦ none | some ch ↦ some (record c { channel = ch }) ])
    at none = tt
    at (some ch) = (refl, refl, refl, refl, refl)

pub call-Framed :
    (set : Bool) (k : Callback) (c : Connection) → deletion k ≡ 0 → Framed c (call set k c)
call-Framed false k c h = (refl, refl, refl, refl, refl)
call-Framed true k c h = (refl, refl, refl, omega (arith, deletions-append c.calls k), refl)

pub OnSome-if {ℓ} :
    {A : Type ℓ} (P : A → Type 0) (b : Bool) (x y : Option A)
    → OnSome P x
    → OnSome P y
    → OnSome P (if b then x else y)
OnSome-if P true x y h k = h
OnSome-if P false x y h k = k

all_sent-Framed : (c : Connection) → OnSome (Framed c) (all_sent c)
unfolding all_sent
all_sent-Framed c =
    Framed-then c (with_channel disable_writing c)
      (λ d. some (call d.callbacks.write_complete_set write_complete d))
      (with_channel-Framed disable_writing c)
      λ d. call-Framed d.callbacks.write_complete_set write_complete d refl

watch_writing-Framed : (c : Connection) → OnSome (Framed c) (watch_writing c)
watch_writing-Framed c =
    OnSome-if (Framed c) (is_writing c.channel) _ _ ((Framed-refl c))
      ((with_channel-Framed (enable_writing true) c))

keep_remaining-Framed : (msg : Bytes) (c : Connection) → OnSome (Framed c) (keep_remaining msg c)
unfolding keep_remaining
keep_remaining-Framed msg c =
    OnSome-bind c (append c.send_buffer msg) (λ b. watch_writing (buffered b c))
      λ b.
        through (buffered b c) (watch_writing (buffered b c))
          (call-Framed _ (high_water_mark (readable_bytes b)) (record c { send_buffer = b }) refl)
          (watch_writing-Framed (buffered b c))
  where
    through :
        (d : Connection) (o : Option Connection)
        → Framed c d
        → OnSome (Framed d) o
        → OnSome (Framed c) o
    through d none h g = tt
    through d (some e) h (a, b, x, y, z) = (a ∙ h.0, b ∙ h.1, x ∙ h.2, y ∙ h.3, z ∙ h.4)

send_remaining-Framed : (msg : Bytes) (c : Connection) → OnSome (Framed c) (send_remaining msg c)
unfolding send_remaining
send_remaining-Framed [] c = all_sent-Framed c
send_remaining-Framed (a ∷ s) c = keep_remaining-Framed (a ∷ s) c

send_directly-Framed :
    (w : WriteResult) (msg : Bytes) (c : Connection) → OnSome (Framed c) (send_directly w msg c)
send_directly-Framed (room n) msg c =
    let k = min n (length msg) in send_remaining-Framed (drop k msg) (taken k msg c)
send_directly-Framed would_block msg c = send_remaining-Framed msg (answered c)
send_directly-Framed write_error msg c = Framed-refl c

pub send-Framed : (msg : Bytes) (c : Connection) → OnSome (Framed c) (send msg c)
unfolding send
send-Framed msg c =
    OnSome-if (Framed c) (readable_bytes c.send_buffer == 0) _ _
      ((send_directly-Framed (next_write c.writes) msg c)) ((send_remaining-Framed msg c))

after_write-Framed : (done : Bool) (c : Connection) → OnSome (Framed c) (after_write done c)
after_write-Framed true c = all_sent-Framed c
after_write-Framed false c = Framed-refl c

write_buffer-Framed : (w : WriteResult) (c : Connection) → OnSome (Framed c) (write_buffer w c)
write_buffer-Framed (room n) c =
    let p = peek_all_as_string c.send_buffer in
    let k = min n (readable_bytes c.send_buffer) in
    let done : Bool = readable_bytes c.send_buffer - k == 0 in
    OnSome-bind c (drop_written k c.send_buffer)
      (λ b. after_write done (record (taken k p c) { send_buffer = b }))
      λ b. after_write-Framed done (record (taken k p c) { send_buffer = b })
write_buffer-Framed would_block c = Framed-refl c
write_buffer-Framed write_error c = Framed-refl c

pub write-Framed : (c : Connection) → OnSome (Framed c) (write c)
unfolding write write_non_blocking
write-Framed c =
    OnSome-if (Framed c) (is_connected c.state) _ _
      ((OnSome-if (Framed c) (readable_bytes c.send_buffer == 0) _ _ (Framed-refl c)
        (write_buffer-Framed (next_write c.writes) c)))
      ((Framed-refl c))

file_loop-Framed :
    (l : List SendfileResult) (file : Bytes) (size sent : ℕ) (c : Connection)
    → OnSome (Framed c) (send_file_loop l file size sent c)
unfolding send_file_loop
file_loop-Framed [] file size sent c =
    OnSome-if (Framed c) (ltb sent size) _ _ (tt) ((Framed-refl c))
file_loop-Framed (moved n ∷ l) file size sent c =
    let k = movable n (size - sent) file sent in
    let ih = file_loop-Framed l file size (sent + k) (moved_bytes k sent file c) in
    OnSome-if (Framed c) (ltb sent size) _ _ (ih) ((Framed-refl c))
file_loop-Framed (interrupted ∷ l) file size sent c =
    let ih = file_loop-Framed l file size sent c in
    OnSome-if (Framed c) (ltb sent size) _ _ (ih) ((Framed-refl c))
file_loop-Framed (again m ∷ l) file size sent c =
    let ih = file_loop-Framed l file size sent c in
    OnSome-if (Framed c) (ltb sent size) _ _ (ih) ((Framed-refl c))
file_loop-Framed (sendfile_error ∷ l) file size sent c = Framed-refl c

pub send_file-Framed :
    (file : Bytes) (size : ℤ) (c : Connection) → OnSome (Framed c) (send_file file size c)
unfolding send_file
send_file-Framed file size c = file_loop-Framed c.sendfiles file (to_size size) 0 c

read_and_send-Framed :
    (m remain offset : ℕ) (file : Bytes) (c : Connection)
    → OnSome (Framed c) (read_and_send m remain offset file c)
read_and_send-Framed m remain offset file c =
    OnSome-if (Framed c) (movable m remain file offset == 0) _ _ ((Framed-refl c))
      ((send-Framed (take (movable m remain file offset) (drop offset file)) c))

range_loop-Framed :
    (l : List SendfileResult) (file : Bytes) (offset remain : ℕ) (c : Connection)
    → OnSome (Framed c) (send_file_range_loop l file offset remain c)
unfolding send_file_range_loop
range_loop-Framed [] file offset remain c =
    OnSome-if (Framed c) (ltb 0 remain) _ _ (tt) ((Framed-refl c))
range_loop-Framed (moved n ∷ l) file offset remain c =
    let k = movable n remain file offset in
    let ih = range_loop-Framed l file (offset + k) (remain - k) (moved_bytes k offset file c) in
    OnSome-if (Framed c) (ltb 0 remain) _ _ ((OnSome-if (Framed c) (k == 0) _ _ (Framed-refl c) ih))
      ((Framed-refl c))
range_loop-Framed (interrupted ∷ l) file offset remain c =
    let ih = range_loop-Framed l file offset remain c in
    OnSome-if (Framed c) (ltb 0 remain) _ _ (ih) ((Framed-refl c))
range_loop-Framed (again m ∷ l) file offset remain c =
    OnSome-if (Framed c) (ltb 0 remain) _ _
      ((read_and_send-Framed m remain offset file (answers_left l c))) ((Framed-refl c))
range_loop-Framed (sendfile_error ∷ l) file offset remain c = Framed-refl c

pub send_file_range-Framed :
    (file : Bytes) (start len : ℕ) (c : Connection)
    → OnSome (Framed c) (send_file_range file start len c)
unfolding send_file_range
send_file_range-Framed file start len c = range_loop-Framed c.sendfiles file start len c
