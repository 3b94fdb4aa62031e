-- ===== src/Tcp/Connection/Interest.antt =====
-- While bytes wait in the buffer, the channel waits until the socket can be written to.
use c_cloud_storage.Prelude.{
  ℕ, ◌+◌, ◌-◌, ◌^◌, ◌≤◌, ◌<◌, ◌≡◌, refl, sym, subst, ap, ◌∙◌, min, Bool, true, false, Option, none,
  some, List, [], ◌∷◌, length, drop, ◌==◌, Bytes, is_empty, arith, Bool-cases, inl, inr,
  length-append, length-drop,
}
use c_cloud_storage.Tcp.Buffer.{Buffer, ◌>>=◌, readable_bytes, peek_all_as_string}
use c_cloud_storage.Tcp.Buffer.Bounds.{IsValid, length-slice}
use c_cloud_storage.Tcp.Channel.{is_writing}
use c_cloud_storage.Tcp.Connection.{
  Connection, WriteResult, room, would_block, write_error, next_write, answered, taken,
  keep_remaining, all_sent, send_remaining, send_directly, send, after_write, written, write_buffer,
  write_non_blocking, write, is_connected,
}
use c_cloud_storage.Tcp.Connection.Sending.{
  IsReady, NoErrors-rest, all_sent_lem, keep_remaining_lem, drop_written_lem,
}
use c_cloud_storage.Tcp.Connection.Stream.{
  Act, sends, writable, act, run, sent, bytes_of, act-Sends, run_next,
}

abbrev pub IsWatched : Connection → Type 0
IsWatched c = 0 < readable_bytes c.send_buffer → is_writing c.channel ≡ true

abbrev Watches : Option Connection → Type 0
Watches o = (d : Connection) × (o ≡ some d) × IsWatched d

-- `Send` of no bytes, while bytes wait in the buffer, takes the channel for done: it succeeds,
-- leaves the buffer as it is and switches off the event that would have written it out.
send_nothing :
    (c : Connection)
    → IsReady c
    → 0 < readable_bytes c.send_buffer
    → (d : Connection) × (send [] c ≡ some d)
      × (d.send_buffer ≡ c.send_buffer)
      × (is_writing d.channel ≡ false)
unfolding send send_remaining
send_nothing c h waiting =
    let (d, e, r, stream, buffer, off) = all_sent_lem c h in (d, ground (arith, e), buffer, off)

none_waiting : {n : ℕ} {A : Type 0} → n ≡ 0 → 0 < n → A
none_waiting e h = absurd (omega arith)

kept-Watches :
    (msg : Bytes) (c : Connection)
    → IsReady c
    → length c.send_buffer.buf + length msg < 2 ^ 64
    → Watches (keep_remaining msg c)
kept-Watches msg c h small =
    let (d, e, r, stream, same, grows, on) = keep_remaining_lem msg c h small in (d, e, λ w. on)

sent-Watches :
    (c : Connection) → IsReady c → readable_bytes c.send_buffer ≡ 0 → Watches (all_sent c)
sent-Watches c h empty =
    let (d, e, r, stream, buffer, off) = all_sent_lem c h in
    (d, e, none_waiting (ap readable_bytes buffer ∙ empty))

remaining-Watches :
    (msg : Bytes) (c : Connection)
    → IsReady c
    → length c.send_buffer.buf + length msg < 2 ^ 64
    → readable_bytes c.send_buffer ≡ 0
    → Watches (send_remaining msg c)
unfolding send_remaining
remaining-Watches [] c h small empty = sent-Watches c h empty
remaining-Watches (a ∷ s) c h small empty = kept-Watches (a ∷ s) c h small

directly-Watches :
    (w : WriteResult) (msg : Bytes) (c : Connection)
    → IsReady c
    → length c.send_buffer.buf + length msg < 2 ^ 64
    → readable_bytes c.send_buffer ≡ 0
    → Watches (send_directly w msg c)
directly-Watches (room n) msg c h small empty =
    let k = min n (length msg) in
    remaining-Watches (drop k msg) (taken k msg c)
      (record { valid = h.valid; synced = h.synced; answers = NoErrors-rest c.writes h.answers })
      (omega (arith, length-drop k msg)) empty
directly-Watches would_block msg c h small empty =
    remaining-Watches msg (answered c)
      (record { valid = h.valid; synced = h.synced; answers = NoErrors-rest c.writes h.answers })
      small empty
directly-Watches write_error msg c h small empty = (answered c, refl, none_waiting empty)

send-Watches :
    (msg : Bytes) (c : Connection)
    → IsReady c
    → length c.send_buffer.buf + length msg < 2 ^ 64
    → is_empty msg ≡ false
    → Watches (send msg c)
unfolding send send_remaining
send-Watches msg c h small full = elim (Bool-cases (readable_bytes c.send_buffer == 0)) [
  | inl e ↦ rw e (directly-Watches (next_write c.writes) msg c h small (ground (arith, e)))
  | inr e ↦ rw (e, full) (kept-Watches msg c h small)
]

after-Watches :
    (done : Bool) (c : Connection)
    → IsReady c
    → (done ≡ true → readable_bytes c.send_buffer ≡ 0)
    → (done ≡ false → IsWatched c)
    → Watches (after_write done c)
after-Watches true c h e w = sent-Watches c h (e refl)
after-Watches false c h e w = (c, refl, w refl)

length-peek_all_as_string :
    (b : Buffer) → IsValid b → length (peek_all_as_string b) ≡ readable_bytes b
unfolding peek_all_as_string
length-peek_all_as_string b v = length-slice b.buf b.read_index (readable_bytes b) (omega arith)

left_none :
    (k : ℕ) (b b' : Buffer)
    → IsValid b
    → IsValid b'
    → peek_all_as_string b' ≡ drop k (peek_all_as_string b)
    → readable_bytes b - k ≡ 0
    → readable_bytes b' ≡ 0
left_none k b b' v v' e h =
    sym (length-peek_all_as_string b' v')
    ∙ ap length e
    ∙ length-drop k (peek_all_as_string b)
    ∙ ap (λ n. n - k) (length-peek_all_as_string b v)
    ∙ h

written-Watches :
    (k : ℕ) (c : Connection)
    → IsReady c
    → k ≤ readable_bytes c.send_buffer
    → 0 < readable_bytes c.send_buffer
    → IsWatched c
    → Watches (written k (taken k (peek_all_as_string c.send_buffer) c))
written-Watches k c h fits waiting w =
    let p = peek_all_as_string c.send_buffer in
    let (b, e, v, long, left) = drop_written_lem k c.send_buffer h.valid fits in
    let done : Bool = readable_bytes c.send_buffer - k == 0 in
    let (d, f, on) =
      after-Watches done (record (taken k p c) { send_buffer = b })
        (record { valid = v; synced = h.synced; answers = NoErrors-rest c.writes h.answers })
        (λ f. left_none k c.send_buffer b h.valid v left (ground (arith, f))) (λ _ _. w waiting) in
    (
      d,
      ap (λ o. o >>= λ b'. after_write done (record (taken k p c) { send_buffer = b' })) e ∙ f,
      on,
    )

buffer-Watches :
    (w : WriteResult) (c : Connection)
    → IsReady c
    → 0 < readable_bytes c.send_buffer
    → IsWatched c
    → Watches (write_buffer w c)
buffer-Watches (room n) c h waiting on =
    written-Watches (min n (readable_bytes c.send_buffer)) c h (omega arith) waiting on
buffer-Watches would_block c h waiting on = (answered c, refl, on)
buffer-Watches write_error c h waiting on = (answered c, refl, on)

write-Watches : (c : Connection) → IsReady c → IsWatched c → Watches (write c)
unfolding write write_non_blocking
write-Watches c h on = elim (Bool-cases (is_connected c.state)) [
  | inl e ↦ elim (Bool-cases (readable_bytes c.send_buffer == 0)) [
    | inl f ↦ rw (e, f) (c, refl, on)
    | inr f ↦ rw (e, f) (buffer-Watches (next_write c.writes) c h (ground (arith, f)) on)
  ]
  | inr e ↦ rw e (c, refl, on)
]

-- No call of `Send` is without bytes.
abbrev pub NoneEmpty : List Act → Type 0
NoneEmpty [] = Unit {0}
NoneEmpty (sends msg ∷ acts) = (is_empty msg ≡ false) × NoneEmpty acts
NoneEmpty (writable ∷ acts) = NoneEmpty acts

act-Watches :
    (a : Act) (c : Connection)
    → IsReady c
    → length c.send_buffer.buf + length (bytes_of a) < 2 ^ 64
    → NoneEmpty (a ∷ [])
    → IsWatched c
    → Watches (act a c)
act-Watches (sends msg) c h small ne on = send-Watches msg c h small ne.0
act-Watches writable c h small ne on = write-Watches c h on

NoneEmpty-parts :
    (a : Act) (acts : List Act) → NoneEmpty (a ∷ acts) → NoneEmpty (a ∷ []) × NoneEmpty acts
NoneEmpty-parts (sends msg) acts (ne, h) = ((ne, tt), h)
NoneEmpty-parts writable acts h = (tt, h)

abbrev from_some : Connection → Option Connection → Connection
from_some c none = c
from_some c (some d) = d

-- Nothing is forgotten in the buffer: after any calls of `Send` with at least a byte and of
-- `HandleWrite`, while bytes wait in the send buffer, the channel has asked to be told when the
-- socket can be written to. The connection begins so, no `write` reports an error, and the send
-- buffer stays below 2^64 bytes.
pub run-IsWatched :
    (acts : List Act) (c : Connection)
    → IsReady c
    → length c.send_buffer.buf + length (sent acts) < 2 ^ 64
    → NoneEmpty acts
    → IsWatched c
    → (d : Connection) × (run acts c ≡ some d) × IsWatched d
run-IsWatched [] c h small ne on = (c, unfold run in refl, on)
run-IsWatched (a ∷ acts) c h small ne on =
    let (first, more) = NoneEmpty-parts a acts ne in
    let (d, e, r, sent_so_far, grows) =
      act-Sends a c h (omega (arith, length-append (bytes_of a) (sent acts))) in
    let (d', e', on') =
      act-Watches a c h (omega (arith, length-append (bytes_of a) (sent acts))) first on in
    let same : d' ≡ d = ap (from_some c) (sym e' ∙ e) in
    let (d'', e'', on'') =
      run-IsWatched acts d r (omega (arith, length-append (bytes_of a) (sent acts))) more
        (subst IsWatched same on') in
    (d'', run_next a acts c d e ∙ e'', on'')
