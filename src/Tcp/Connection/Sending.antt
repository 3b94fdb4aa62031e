-- ===== src/Tcp/Connection/Sending.antt =====
-- What one call of `Send` or `Write` does to the bytes sent so far.
use c_cloud_storage.Prelude.{
  ℕ, zero, suc, ◌+◌, ◌-◌, ◌^◌, ◌≤◌, ◌<◌, ◌≡◌, refl, sym, subst, ap, ap₂, ◌∙◌, min, Bool, true,
  false, Option, some, List, [], ◌∷◌, ◌++◌, length, take, drop, ◌==◌, Bytes, arith, Bool-cases, inl,
  inr, append_assoc, append-nil, take-append-drop, length-drop,
}
use c_cloud_storage.Tcp.Buffer.{Buffer, ◌>>=◌, readable_bytes, peek_all_as_string, slice}
use c_cloud_storage.Tcp.Buffer.Bounds.{IsValid}
use c_cloud_storage.Tcp.Buffer.Contents.{append_lem, retrieve_lem}
use c_cloud_storage.Tcp.Channel.{Channel, is_writing, enable_writing, disable_writing}
use c_cloud_storage.Tcp.Channel.Sync.{
  IsSynced, write_on, write_off, apply, apply_lem, updated, set_events, asks,
}
use c_cloud_storage.Tcp.Connection.{
  Connection, write_complete, buffered, watch_writing, call, with_channel, WriteResult, room,
  would_block, write_error, next_write, rest, answered, taken, keep_remaining, all_sent,
  send_remaining, send_directly, send, drop_written, after_write, written, write_buffer,
  write_non_blocking, write, is_connected,
}

abbrev pub NoErrors : List WriteResult → Type 0
NoErrors [] = Unit {0}
NoErrors (write_error ∷ l) = ⊥
NoErrors (_ ∷ l) = NoErrors l

-- The buffer is in order, the kernel watches what the channel asks for, and no call of `write` will
-- report an error.
pub record IsReady (c : Connection) : Type 0 where
  pub valid : IsValid c.send_buffer
  pub synced : IsSynced c.channel
  pub answers : NoErrors c.writes

pub NoErrors-rest : (l : List WriteResult) → NoErrors l → NoErrors (rest l)
NoErrors-rest [] h = tt
NoErrors-rest (room n ∷ l) h = h
NoErrors-rest (would_block ∷ l) h = h
NoErrors-rest (write_error ∷ l) h = absurd h

-- The bytes sent so far: those that the socket took, and those that wait.
abbrev pub backlog : Connection → Bytes
backlog c = c.stream ++ peek_all_as_string c.send_buffer

with_channel_lem :
    (f : Channel → Option Channel) (c : Connection) (ch : Channel)
    → f c.channel ≡ some ch
    → with_channel f c ≡ some (record c { channel = ch })
with_channel_lem f c ch e = ground (arith, e)

disable_writing_lem :
    (ch : Channel)
    → IsSynced ch
    → disable_writing ch ≡ some (updated (set_events (asks write_off ch.events) ch))
unfolding apply
disable_writing_lem ch h = apply_lem write_off ch h

enable_writing_lem :
    (ch : Channel)
    → IsSynced ch
    → enable_writing true ch ≡ some (updated (set_events (asks (write_on true) ch.events) ch))
unfolding apply
enable_writing_lem ch h = apply_lem (write_on true) ch h

pub all_sent_lem :
    (c : Connection)
    → IsReady c
    → (d : Connection) × (all_sent c ≡ some d)
      × IsReady d
      × (d.stream ≡ c.stream)
      × (d.send_buffer ≡ c.send_buffer)
      × (is_writing d.channel ≡ false)
unfolding all_sent
all_sent_lem c h =
    let ch = updated (set_events (asks write_off c.channel.events) c.channel) in
    let d = record c { channel = ch } in
    (
      call d.callbacks.write_complete_set write_complete d,
      ap (λ o. o >>= λ e. some (call e.callbacks.write_complete_set write_complete e))
          (with_channel_lem disable_writing c ch (disable_writing_lem c.channel h.synced)),
      record { valid = h.valid; synced = refl; answers = h.answers },
      refl,
      refl,
      refl,
    )

watch_writing_lem :
    (c : Connection)
    → IsReady c
    → (d : Connection) × (watch_writing c ≡ some d)
      × IsReady d
      × (d.stream ≡ c.stream)
      × (d.send_buffer ≡ c.send_buffer)
      × (is_writing d.channel ≡ true)
watch_writing_lem c h = elim (Bool-cases (is_writing c.channel)) [
  | inl e ↦ (c, ground (arith, e), h, refl, refl, e)
  | inr e ↦
      let ch = updated (set_events (asks (write_on true) c.channel.events) c.channel) in
      (
        record c { channel = ch },
        ground (
          arith,
          e,
          with_channel_lem (enable_writing true) c ch (enable_writing_lem c.channel h.synced),
        ),
        record { valid = h.valid; synced = refl; answers = h.answers },
        refl,
        refl,
        refl,
      )
]

pub keep_remaining_lem :
    (msg : Bytes) (c : Connection)
    → IsReady c
    → length c.send_buffer.buf + length msg < 2 ^ 64
    → (d : Connection) × (keep_remaining msg c ≡ some d)
      × IsReady d
      × (d.stream ≡ c.stream)
      × (peek_all_as_string d.send_buffer ≡ peek_all_as_string c.send_buffer ++ msg)
      × (length d.send_buffer.buf ≤ length c.send_buffer.buf + length msg)
      × (is_writing d.channel ≡ true)
unfolding keep_remaining
keep_remaining_lem msg c h small =
    let v = h.valid in
    let (b, e, w, grows, same) = append_lem {b = c.send_buffer} msg v (omega arith) in
    let (d, f, r, stream, buffer, on) =
      watch_writing_lem (buffered b c)
        (record { valid = w; synced = h.synced; answers = h.answers }) in
    (
      d,
      ap (λ o. o >>= λ b'. watch_writing (buffered b' c)) e ∙ f,
      r,
      stream,
      ap peek_all_as_string buffer ∙ same,
      subst (λ x. length x.buf ≤ length c.send_buffer.buf + length msg) (sym buffer) grows,
      on,
    )

-- A call sends the bytes `msg`: it succeeds, and they stand behind all that was sent before.
abbrev pub Sends : Connection → Bytes → Option Connection → Type 0
Sends c msg o =
    (d : Connection) × (o ≡ some d)
    × IsReady d
    × (backlog d ≡ backlog c ++ msg)
    × (length d.send_buffer.buf ≤ length c.send_buffer.buf + length msg)

send_remaining-Sends :
    (msg : Bytes) (c : Connection)
    → IsReady c
    → length c.send_buffer.buf + length msg < 2 ^ 64
    → Sends c msg (send_remaining msg c)
unfolding send_remaining
send_remaining-Sends [] c h small =
    let (d, e, r, stream, buffer, off) = all_sent_lem c h in
    (
      d,
      e,
      r,
      ap₂ (λ t b. t ++ peek_all_as_string b) stream buffer ∙ sym (append-nil (backlog c)),
      subst (λ b. length b.buf ≤ length c.send_buffer.buf + 0) (sym buffer) (omega arith),
    )
send_remaining-Sends (a ∷ s) c h small =
    let (d, e, r, stream, same, grows, on) = keep_remaining_lem (a ∷ s) c h small in
    (
      d,
      e,
      r,
      ap₂ ◌++◌ stream same ∙ sym (append_assoc c.stream (peek_all_as_string c.send_buffer) (a ∷ s)),
      grows,
    )

peek_none : (b : Buffer) → readable_bytes b ≡ 0 → peek_all_as_string b ≡ []
unfolding peek_all_as_string slice
peek_none b e = ap (λ n. take n (drop b.read_index b.buf)) e

split_sent :
    (s p msg : Bytes) (k : ℕ) → p ≡ [] → ((s ++ take k msg) ++ p) ++ drop k msg ≡ (s ++ p) ++ msg
split_sent s p msg k e = rw e (
    rw (append-nil (s ++ take k msg), append-nil s)
      (append_assoc s (take k msg) (drop k msg) ∙ ap (◌++◌ s) (take-append-drop k msg)))

-- With an empty buffer, what the socket takes at once and what is kept are the message.
send_directly-Sends :
    (w : WriteResult) (msg : Bytes) (c : Connection)
    → IsReady c
    → length c.send_buffer.buf + length msg < 2 ^ 64
    → readable_bytes c.send_buffer ≡ 0
    → NoErrors (w ∷ [])
    → Sends c msg (send_directly w msg c)
send_directly-Sends (room n) msg c h small empty ok =
    let k = min n (length msg) in
    let (d, e, r, sent, grows) =
      send_remaining-Sends (drop k msg) (taken k msg c)
        (record { valid = h.valid; synced = h.synced; answers = NoErrors-rest c.writes h.answers })
        (omega (arith, length-drop k msg)) in
    (
      d,
      e,
      r,
      sent
          ∙ split_sent c.stream (peek_all_as_string c.send_buffer) msg k
              (peek_none c.send_buffer empty),
      omega (arith, length-drop k msg),
    )
send_directly-Sends would_block msg c h small empty ok =
    send_remaining-Sends msg (answered c)
      (record { valid = h.valid; synced = h.synced; answers = NoErrors-rest c.writes h.answers })
      small
send_directly-Sends write_error msg c h small empty ok = absurd ok

pub NoErrors-next : (l : List WriteResult) → NoErrors l → NoErrors (next_write l ∷ [])
NoErrors-next [] h = tt
NoErrors-next (room n ∷ l) h = tt
NoErrors-next (would_block ∷ l) h = tt
NoErrors-next (write_error ∷ l) h = h

pub send_lem :
    (msg : Bytes) (c : Connection)
    → IsReady c
    → length c.send_buffer.buf + length msg < 2 ^ 64
    → Sends c msg (send msg c)
unfolding send
send_lem msg c h small = elim (Bool-cases (readable_bytes c.send_buffer == 0)) [
  | inl e ↦ rw e (
      send_directly-Sends (next_write c.writes) msg c h small (ground (arith, e))
        (NoErrors-next c.writes h.answers))
  | inr e ↦ rw e (send_remaining-Sends msg c h small)
]

pub drop_written_lem :
    (k : ℕ) (b : Buffer)
    → IsValid b
    → k ≤ readable_bytes b
    → (b' : Buffer) × (drop_written k b ≡ some b')
      × IsValid b'
      × (length b'.buf ≡ length b.buf)
      × (peek_all_as_string b' ≡ drop k (peek_all_as_string b))
drop_written_lem zero b v fits = (b, refl, v, refl, refl)
drop_written_lem (suc k) b v fits =
    let (b', e, v', long, left) = retrieve_lem {b = b} (suc k) v fits in
    (b', ground (arith, e), v', long, left)

after_write_lem :
    (done : Bool) (c : Connection)
    → IsReady c
    → (d : Connection) × (after_write done c ≡ some d)
      × IsReady d
      × (d.stream ≡ c.stream)
      × (d.send_buffer ≡ c.send_buffer)
after_write_lem false c h = (c, refl, h, refl, refl)
after_write_lem true c h =
    let (d, e, r, stream, buffer, off) = all_sent_lem c h in (d, e, r, stream, buffer)

written-Sends :
    (k : ℕ) (c : Connection)
    → IsReady c
    → k ≤ readable_bytes c.send_buffer
    → Sends c [] (written k (taken k (peek_all_as_string c.send_buffer) c))
written-Sends k c h fits =
    let p = peek_all_as_string c.send_buffer in
    let (b, e, v, long, left) = drop_written_lem k c.send_buffer h.valid fits in
    let done : Bool = readable_bytes c.send_buffer - k == 0 in
    let (d, f, r, stream, buffer) =
      after_write_lem done (record (taken k p c) { send_buffer = b })
        (record { valid = v; synced = h.synced; answers = NoErrors-rest c.writes h.answers }) in
    (
      d,
      ap (λ o. o >>= λ b'. after_write done (record (taken k p c) { send_buffer = b' })) e ∙ f,
      r,
      ap₂ (λ t x. t ++ peek_all_as_string x) stream buffer
          ∙ ap (λ x. (c.stream ++ take k p) ++ x) left
          ∙ append_assoc c.stream (take k p) (drop k p)
          ∙ ap (◌++◌ c.stream) (take-append-drop k p)
          ∙ sym (append-nil (backlog c)),
      subst (λ x. length x.buf ≤ length c.send_buffer.buf + 0) (sym buffer) (omega arith),
    )

write_buffer-Sends : (w : WriteResult) (c : Connection) → IsReady c → Sends c [] (write_buffer w c)
write_buffer-Sends (room n) c h =
    written-Sends (min n (readable_bytes c.send_buffer)) c h (omega arith)
write_buffer-Sends would_block c h = (
  answered c,
  refl,
  record { valid = h.valid; synced = h.synced; answers = NoErrors-rest c.writes h.answers },
  sym (append-nil (backlog c)),
  omega arith,
)
write_buffer-Sends write_error c h = (
  answered c,
  refl,
  record { valid = h.valid; synced = h.synced; answers = NoErrors-rest c.writes h.answers },
  sym (append-nil (backlog c)),
  omega arith,
)

write_non_blocking-Sends : (c : Connection) → IsReady c → Sends c [] (write_non_blocking c)
unfolding write_non_blocking
write_non_blocking-Sends c h = elim (Bool-cases (readable_bytes c.send_buffer == 0)) [
  | inl e ↦ rw e (c, refl, h, sym (append-nil (backlog c)), omega arith)
  | inr e ↦ rw e (write_buffer-Sends (next_write c.writes) c h)
]

pub write-Sends : (c : Connection) → IsReady c → Sends c [] (write c)
unfolding write
write-Sends c h = elim (Bool-cases (is_connected c.state)) [
  | inl e ↦ rw e (write_non_blocking-Sends c h)
  | inr e ↦ rw e (c, refl, h, sym (append-nil (backlog c)), omega arith)
]
