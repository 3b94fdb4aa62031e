-- ===== src/Tcp/Connection/Closing.antt =====
-- A connection is closed once, and stays closed.
use c_cloud_storage.Prelude.{
  ℕ, zero, suc, ◌+◌, ◌≤◌, ◌<◌, ◌≡◌, refl, sym, subst, ap, ◌∙◌, Bool, true, false, Option, none,
  some, List, [], ◌∷◌, ◌==◌, if◌then◌else◌, if_then, if_else, Bytes, arith, Bool-cases, inl, inr,
}
use c_cloud_storage.Prelude.Number.{ℤ}
use c_cloud_storage.Tcp.Buffer.{◌>>=◌, ReadResult, failed, filled, append, read_fd, retrieve_all}
use c_cloud_storage.Tcp.Connection.{
  Connection, closed, Callback, on_message, delete_connection, close, error, call, WriteResult,
  SendfileResult, send, write, is_connected, is_closed, handle_close, handle_error,
  read_non_blocking, read, handle_event, shutdown, force_close, set_send_buffer, eintr, eagain,
}
use c_cloud_storage.Tcp.Connection.Files.{send_file, send_file_range}
use c_cloud_storage.Tcp.Connection.Frame.{
  deletion, deletions, deletions-append, Framed, OnSome, OnSome-if, call-Framed, send-Framed,
  write-Framed, send_file-Framed, send_file_range-Framed,
}

-- What a connection does between its establishment and its end. `answers` is the system, which has
-- further answers ready.
pub data Step (c d : Connection) : Type 0 where
  sends : (msg : Bytes) → send msg c ≡ some d → Step c d
  sends_file : (file : Bytes) (size : ℤ) → send_file file size c ≡ some d → Step c d
  sends_range :
      (file : Bytes) (start len : ℕ) → send_file_range file start len c ≡ some d → Step c d
  handles_event : handle_event c ≡ some d → Step c d
  handles_write : write c ≡ some d → Step c d
  handles_close : handle_close c ≡ d → Step c d
  handles_error : handle_error c ≡ d → Step c d
  shuts_down : shutdown c ≡ d → Step c d
  forces_close : force_close c ≡ d → Step c d
  sets_buffer : (text : Bytes) → set_send_buffer text c ≡ some d → Step c d
  answers :
      (w : List WriteResult) (s : List SendfileResult) (r : List ReadResult)
      → record c { writes = w; sendfiles = s; reads = r } ≡ d
      → Step c d

pub data Reach (c : Connection) : Connection → Type 0 where
  here : Reach c c
  next : {d e : Connection} → Reach c d → Step d e → Reach c e

-- The server was told at most once to delete the connection, and only when it closed.
pub record IsOnce (c : Connection) : Type 0 where
  pub once : deletions c.calls ≤ 1
  pub when_closed : 0 < deletions c.calls → is_closed c.state ≡ true

-- Closed before means closed after.
abbrev StaysClosed : Connection → Connection → Type 0
StaysClosed c d = is_closed c.state ≡ true → is_closed d.state ≡ true

abbrev Good : Connection → Connection → Type 0
Good c d = (IsOnce c → IsOnce d) × StaysClosed c d × (d.last_active_time ≡ c.last_active_time)

Framed-Good : (c d : Connection) → Framed c d → Good c d
Framed-Good c d h = (
  λ o. record {
    once = subst (λ n. n ≤ 1) (sym h.3) o.once;
    when_closed = λ k. ap is_closed h.1 ∙ o.when_closed (subst (λ n. 0 < n) h.3 k);
  },
  λ k. ap is_closed h.1 ∙ k,
  h.4,
)

OnSome-Good : (c : Connection) (o : Option Connection) → OnSome (Framed c) o → OnSome (Good c) o
OnSome-Good c none h = tt
OnSome-Good c (some d) h = Framed-Good c d h

none_yet : (n : ℕ) (b : Bool) → (0 < n → b ≡ true) → b ≡ false → n ≡ 0
none_yet zero b h e = refl
none_yet (suc n) b h e = ground (arith, h (omega arith))

deletions-call :
    (set : Bool) (k : Callback) (c : Connection)
    → deletion k ≡ 0
    → deletions (call set k c).calls ≡ deletions c.calls
deletions-call set k c h = (call-Framed set k c h).3

-- The two branches of `HandleClose`.
handle_close-Good : (c : Connection) → Good c (handle_close c)
unfolding handle_close
handle_close-Good c = elim (Bool-cases (is_closed c.state)) [
  | inl e ↦ subst (Good c) (sym (if_then _ _ e)) (λ o. o, λ k. k, refl)
  | inr e ↦ subst (Good c) (sym (if_else _ _ e)) (opened e)
]
  where
    d : Connection
    d = record c { state = closed }

    grown :
        deletions (call true delete_connection (call d.callbacks.close_set close d)).calls
        ≡ deletions c.calls + 1
    grown =
        deletions-append (call d.callbacks.close_set close d).calls delete_connection
        ∙ ap (λ n. n + 1) (deletions-call d.callbacks.close_set close d refl)

    stays :
        is_closed (call true delete_connection (call d.callbacks.close_set close d)).state ≡ true
    stays = refl

    same_time :
        (call true delete_connection (call d.callbacks.close_set close d)).last_active_time
        ≡ c.last_active_time
    same_time = refl

    opened :
        is_closed c.state ≡ false
        → Good c (call true delete_connection (call d.callbacks.close_set close d))
    opened e = (
      λ o. record {
        once =
            omega (arith, grown, none_yet (deletions c.calls) (is_closed c.state) o.when_closed e);
        when_closed = λ k. stays;
      },
      λ k. stays,
      same_time,
    )

Good-trans : (c d e : Connection) → Good c d → Good d e → Good c e
Good-trans c d e (a, b, t) (x, y, u) = (λ o. x (a o), λ k. y (b k), u ∙ t)

call-Good : (set : Bool) (k : Callback) (c : Connection) → deletion k ≡ 0 → Good c (call set k c)
call-Good set k c h = Framed-Good c (call set k c) (call-Framed set k c h)

same-Good :
    (c d : Connection)
    → d.state ≡ c.state
    → d.calls ≡ c.calls
    → d.last_active_time ≡ c.last_active_time
    → Good c d
same-Good c d h k t = (
  λ o. record {
    once = subst (λ n. n ≤ 1) (sym (ap deletions k)) o.once;
    when_closed = λ l. ap is_closed h ∙ o.when_closed (subst (λ n. 0 < n) (ap deletions k) l);
  },
  λ l. ap is_closed h ∙ l,
  t,
)

OnSome-same :
    (c d : Connection) (o : Option Connection)
    → d.state ≡ c.state
    → d.calls ≡ c.calls
    → d.last_active_time ≡ c.last_active_time
    → OnSome (Good d) o
    → OnSome (Good c) o
OnSome-same c d none h k t g = tt
OnSome-same c d (some e) h k t g = Good-trans c d e (same-Good c d h k t) g

bind-Good {ℓ} :
    {A : Type ℓ} (c : Connection) (o : Option A) (f : A → Option Connection)
    → ((a : A) → OnSome (Good c) (f a))
    → OnSome (Good c) (o >>= f)
bind-Good c none f h = tt
bind-Good c (some a) f h = h a

reading-Good : (l : List ReadResult) (c : Connection) → OnSome (Good c) (read_non_blocking l c)
unfolding read_non_blocking
reading-Good [] c = same-Good c (record c { reads = [] }) refl refl refl
reading-Good (failed errno ∷ more) c =
    let left = record c { reads = more } in
    let ended =
      Good-trans c left (handle_close left) (same-Good c left refl refl refl)
        (handle_close-Good left) in
    OnSome-if (Good c) (errno == eintr) _ _ (reading-Good more c) (
      OnSome-if (Good c) (errno == eagain) (some left) (some (handle_close left))
        (same-Good c left refl refl refl) ended)
reading-Good (filled [] ∷ more) c =
    let left = record c { reads = more } in
    Good-trans c left (handle_close left) (same-Good c left refl refl refl) (handle_close-Good left)
reading-Good (filled (a ∷ s) ∷ more) c =
    bind-Good c (read_fd c.read_buffer (filled (a ∷ s)))
      (λ b. read_non_blocking more (record c { read_buffer = b }))
      λ b.
        OnSome-same c (record c { read_buffer = b })
          (read_non_blocking more (record c { read_buffer = b })) refl refl refl
          (reading-Good more (record c { read_buffer = b }))

read-Good : (c : Connection) → OnSome (Good c) (read c)
unfolding read
read-Good c =
    let d = record c { read_buffer = retrieve_all c.read_buffer } in
    OnSome-if (Good c) (is_connected c.state) (read_non_blocking c.reads d) (some c)
      (OnSome-same c d (read_non_blocking c.reads d) refl refl refl (reading-Good c.reads d))
      (λ o. o, λ k. k, refl)

then-Good :
    (c : Connection) (o : Option Connection) (f : Connection → Option Connection)
    → OnSome (Good c) o
    → ((d : Connection) → OnSome (Good d) (f d))
    → OnSome (Good c) (o >>= f)
then-Good c none f h k = tt
then-Good c (some d) f h k = through (f d) (k d)
  where
    through : (o : Option Connection) → OnSome (Good d) o → OnSome (Good c) o
    through none g = tt
    through (some e) g = Good-trans c d e h g

event-Good : (c : Connection) → OnSome (Good c) (handle_event c)
unfolding handle_event
event-Good c =
    then-Good c (read c) (λ d. some (call d.callbacks.message_set on_message d)) (read-Good c)
      (λ d. call-Good d.callbacks.message_set on_message d refl)

if-Good :
    (c : Connection) (b : Bool) (d e : Connection)
    → Good c d
    → Good c e
    → Good c (if b then d else e)
if-Good c true d e h k = h
if-Good c false d e h k = k

shutdown-Good : (c : Connection) → Good c (shutdown c)
unfolding shutdown
shutdown-Good c =
    if-Good c _ (record c { shut_wr = true }) c
      (same-Good c (record c { shut_wr = true }) refl refl refl) (λ o. o, λ k. k, refl)

force_close-Good : (c : Connection) → Good c (force_close c)
unfolding force_close
force_close-Good c = if-Good c _ (handle_close c) c (handle_close-Good c) (λ o. o, λ k. k, refl)

set_buffer-Good : (text : Bytes) (c : Connection) → OnSome (Good c) (set_send_buffer text c)
unfolding set_send_buffer
set_buffer-Good text c =
    bind-Good c (append (retrieve_all c.send_buffer) text)
      (λ b. some (record c { send_buffer = b }))
      λ b. same-Good c (record c { send_buffer = b }) refl refl refl

result-Good : (c d : Connection) (o : Option Connection) → o ≡ some d → OnSome (Good c) o → Good c d
result-Good c d o e h = subst (OnSome (Good c)) e h

Step-Good : (c d : Connection) → Step c d → Good c d
Step-Good c d (sends msg e) = result-Good c d _ e (OnSome-Good c (send msg c) (send-Framed msg c))
Step-Good c d (sends_file file size e) =
    result-Good c d _ e (OnSome-Good c (send_file file size c) (send_file-Framed file size c))
Step-Good c d (sends_range file start len e) =
    result-Good c d _ e
      (OnSome-Good c (send_file_range file start len c) (send_file_range-Framed file start len c))
Step-Good c d (handles_event e) = result-Good c d _ e (event-Good c)
Step-Good c d (handles_write e) = result-Good c d _ e (OnSome-Good c (write c) (write-Framed c))
Step-Good c d (handles_close e) = subst (Good c) e (handle_close-Good c)
Step-Good c d (handles_error e) = subst (Good c) e (call-Good c.callbacks.error_set error c refl)
Step-Good c d (shuts_down e) = subst (Good c) e (shutdown-Good c)
Step-Good c d (forces_close e) = subst (Good c) e (force_close-Good c)
Step-Good c d (sets_buffer text e) = result-Good c d _ e (set_buffer-Good text c)
Step-Good c d (answers w s r e) =
    subst (Good c) e
      (same-Good c (record c { writes = w; sendfiles = s; reads = r }) refl refl refl)

Reach-Good : (c d : Connection) → Reach c d → Good c d
Reach-Good c _ here = (λ o. o, λ k. k, refl)
Reach-Good c e (next {d = d} r s) = Good-trans c d e (Reach-Good c d r) (Step-Good d e s)

-- From a connection that has not yet told the server to delete it, no sequence of sends, file
-- sends, events of the loop, shutdowns and forced closes tells it twice, and what has told it is
-- closed. Once the connection is closed, it stays closed.
pub Reach-IsOnce :
    (c d : Connection)
    → deletions c.calls ≡ 0
    → Reach c d
    → IsOnce d × (is_closed c.state ≡ true → is_closed d.state ≡ true)
Reach-IsOnce c d h r =
    let g = Reach-Good c d r in
    (g.0 (record { once = omega (arith, h); when_closed = λ k. ground (arith, h, k) }), g.1)

-- No event, and nothing that is sent or received, moves the time of a connection forward.
pub Reach-last_active_time :
    (c d : Connection) → Reach c d → d.last_active_time ≡ c.last_active_time
Reach-last_active_time c d r = (Reach-Good c d r).2
