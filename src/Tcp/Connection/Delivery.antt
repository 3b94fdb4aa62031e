-- ===== src/Tcp/Connection/Delivery.antt =====
-- What `SendFile` and `SendFileRange` deliver of a file.
use c_cloud_storage.Prelude.{
  ℕ, zero, suc, ◌+◌, ◌-◌, ◌^◌, ◌≤◌, ◌<◌, ◌≡◌, refl, sym, subst, ap, ◌∙◌, Option, none, some, List,
  [], ◌∷◌, ◌++◌, length, take, drop, ltb, ◌==◌, Bytes, arith, Bool-cases, inl, inr, append_assoc,
  append-nil, length-take, drop-drop,
}
use c_cloud_storage.Tcp.Buffer.{peek_all_as_string}
use c_cloud_storage.Tcp.Connection.{
  Connection, SendfileResult, moved, interrupted, again, sendfile_error,
}
use c_cloud_storage.Tcp.Connection.Files.{
  movable, moved_bytes, answers_left, send_file_loop, read_and_send, send_file_range_loop,
  send_file_range,
}
use c_cloud_storage.Tcp.Connection.Sending.{IsReady, backlog, send_lem}

abbrev NoErrors : List SendfileResult → Type 0
NoErrors [] = Unit {0}
NoErrors (sendfile_error ∷ l) = ⊥
NoErrors (_ ∷ l) = NoErrors l

-- `SendFile` with a size beyond the end of the file goes on for ever, whatever `sendfile` answers,
-- unless it fails.
send_file_loop_endless :
    (l : List SendfileResult) (file : Bytes) (size sent : ℕ) (c : Connection)
    → NoErrors l
    → length file < size
    → sent ≤ length file
    → send_file_loop l file size sent c ≡ none
unfolding send_file_loop
send_file_loop_endless [] file size sent c h long inside = ground arith
send_file_loop_endless (moved n ∷ l) file size sent c h long inside =
    let k = movable n (size - sent) file sent in
    ground (
      arith,
      send_file_loop_endless l file size (sent + k) (moved_bytes k sent file c) h long
          (omega arith),
    )
send_file_loop_endless (interrupted ∷ l) file size sent c h long inside =
    ground (arith, send_file_loop_endless l file size sent c h long inside)
send_file_loop_endless (again m ∷ l) file size sent c h long inside =
    ground (arith, send_file_loop_endless l file size sent c h long inside)
send_file_loop_endless (sendfile_error ∷ l) file size sent c h long inside = absurd h

-- Some first bytes of the range are sent.
abbrev Delivers : Bytes → ℕ → ℕ → Connection → Option Connection → Type 0
Delivers file offset remain c none = Unit {0}
Delivers file offset remain c (some d) =
    (j : ℕ) × (j ≤ remain) × (backlog d ≡ backlog c ++ take j (drop offset file))

nothing_to_take : (j : ℕ) → ◌≡◌ {A = Bytes} (take j []) []
nothing_to_take zero = refl
nothing_to_take (suc j) = refl

take_more : (n k j : ℕ) (l : Bytes) → n ≡ k + j → take n l ≡ take k l ++ take j (drop k l)
take_more n zero j l e = ap (λ i. take i l) (omega arith)
take_more zero (suc k) j l e = absurd (omega arith)
take_more (suc n) (suc k) j [] e = sym (nothing_to_take j)
take_more (suc n) (suc k) j (a ∷ l) e = ap (◌∷◌ a) (take_more n k j l (omega arith))

nothing_more :
    (file : Bytes) (offset remain : ℕ) (c : Connection) → Delivers file offset remain c (some c)
nothing_more file offset remain c = (0, omega arith, sym (append-nil (backlog c)))

from_move :
    (k offset remain : ℕ) (file : Bytes) (c : Connection) (o : Option Connection)
    → peek_all_as_string c.send_buffer ≡ []
    → k ≤ remain
    → Delivers file (offset + k) (remain - k) (moved_bytes k offset file c) o
    → Delivers file offset remain c o
from_move k offset remain file c none e h g = tt
from_move k offset remain file c (some d) e h (j, fits, same) = (
  k + j,
  omega arith,
  same
      ∙ ap (λ p. ((c.stream ++ take k (drop offset file)) ++ p) ++ take j (drop (offset + k) file))
          e
      ∙ ap (λ s. s ++ take j (drop (offset + k) file))
          (append-nil (c.stream ++ take k (drop offset file)))
      ∙ append_assoc c.stream (take k (drop offset file)) (take j (drop (offset + k) file))
      ∙ ap (λ l. c.stream ++ (take k (drop offset file) ++ take j l))
          (sym (drop-drop (offset + k) k offset file refl))
      ∙ ap (◌++◌ c.stream) (sym (take_more (k + j) k j (drop offset file) refl))
      ∙ ap (λ s. s ++ take (k + j) (drop offset file))
          (sym (append-nil c.stream) ∙ ap (◌++◌ c.stream) (sym e)),
)

read_and_send-Delivers :
    (m remain offset : ℕ) (file : Bytes) (c : Connection)
    → IsReady c
    → length c.send_buffer.buf + remain < 2 ^ 64
    → Delivers file offset remain c (read_and_send m remain offset file c)
read_and_send-Delivers m remain offset file c h small =
    elim (Bool-cases (movable m remain file offset == 0)) [
      | inl e ↦ rw e (nothing_more file offset remain c)
      | inr e ↦
          let rn = movable m remain file offset in
          let (d, f, r, same, grows) =
            send_lem (take rn (drop offset file)) c h
              (omega (arith, length-take rn (drop offset file))) in
          rw (e, f) (rn, omega arith, same)
    ]

range_loop-Delivers :
    (l : List SendfileResult) (file : Bytes) (offset remain : ℕ) (c : Connection)
    → IsReady c
    → peek_all_as_string c.send_buffer ≡ []
    → length c.send_buffer.buf + remain < 2 ^ 64
    → Delivers file offset remain c (send_file_range_loop l file offset remain c)
unfolding send_file_range_loop
range_loop-Delivers [] file offset remain c h e small = elim (Bool-cases (ltb 0 remain)) [
  | inl f ↦ rw f tt
  | inr f ↦ rw f (nothing_more file offset remain c)
]
range_loop-Delivers (moved n ∷ l) file offset remain c h e small =
    let k = movable n remain file offset in
    let ih =
      range_loop-Delivers l file (offset + k) (remain - k) (moved_bytes k offset file c)
        (record { valid = h.valid; synced = h.synced; answers = h.answers }) e (omega arith) in
    elim (Bool-cases (ltb 0 remain)) [
      | inl f ↦ elim (Bool-cases (k == 0)) [
        | inl g ↦ rw (f, g) (nothing_more file offset remain c)
        | inr g ↦ rw (f, g) (from_move k offset remain file c _ e (omega arith) ih)
      ]
      | inr f ↦ rw f (nothing_more file offset remain c)
    ]
range_loop-Delivers (interrupted ∷ l) file offset remain c h e small =
    let ih = range_loop-Delivers l file offset remain c h e small in
    elim (Bool-cases (ltb 0 remain)) [
      | inl f ↦ rw f ih
      | inr f ↦ rw f (nothing_more file offset remain c)
    ]
range_loop-Delivers (again m ∷ l) file offset remain c h e small =
    elim (Bool-cases (ltb 0 remain)) [
      | inl f ↦ rw f (
          read_and_send-Delivers m remain offset file (answers_left l c)
            (record { valid = h.valid; synced = h.synced; answers = h.answers }) small)
      | inr f ↦ rw f (nothing_more file offset remain c)
    ]
range_loop-Delivers (sendfile_error ∷ l) file offset remain c h e small =
    nothing_more file offset remain c

-- With nothing in the send buffer, `SendFileRange` sends the first bytes of the range, in order
-- and each once, and nothing else: what the socket took and what waits in the buffer is then what
-- it was before, followed by at most `len` bytes of the file from `start` on. No `write` reports an
-- error, and the buffer stays below 2^64 bytes.
pub send_file_range_prefix :
    (file : Bytes) (start len : ℕ) (c d : Connection)
    → IsReady c
    → peek_all_as_string c.send_buffer ≡ []
    → length c.send_buffer.buf + len < 2 ^ 64
    → send_file_range file start len c ≡ some d
    → (j : ℕ) × (j ≤ len) × (backlog d ≡ backlog c ++ take j (drop start file))
unfolding send_file_range
send_file_range_prefix file start len c d h e small f =
    subst (Delivers file start len c) f (range_loop-Delivers c.sendfiles file start len c h e small)

range_loop_done :
    (l : List SendfileResult) (file : Bytes) (offset : ℕ) (c : Connection)
    → send_file_range_loop l file offset 0 c ≡ some (answers_left l c)
unfolding send_file_range_loop
range_loop_done [] file offset c = refl
range_loop_done (moved n ∷ l) file offset c = refl
range_loop_done (interrupted ∷ l) file offset c = refl
range_loop_done (again m ∷ l) file offset c = refl
range_loop_done (sendfile_error ∷ l) file offset c = refl

-- `SendFileRange` does not look at the send buffer: where the socket has room again, the bytes of
-- the file go out before all that still waits in the buffer, such as the head of the response.
send_file_range_overtakes :
    (n : ℕ) (l : List SendfileResult) (file : Bytes) (start len : ℕ) (c : Connection)
    → 0 < len
    → len ≤ n
    → start + len ≤ length file
    → (d : Connection) × (send_file_range file start len (record c { sendfiles = moved n ∷ l })
        ≡ some d)
      × (d.stream ≡ c.stream ++ take len (drop start file))
      × (d.send_buffer ≡ c.send_buffer)
unfolding send_file_range send_file_range_loop
send_file_range_overtakes n l file start len c h fits inside =
    let all : movable n len file start ≡ len = omega arith in
    (
      answers_left l (moved_bytes len start file c),
      ground (
        arith,
        all,
        range_loop_done l file (start + len)
            (moved_bytes len start file (record c { sendfiles = moved n ∷ l })),
        (let z : len - len ≡ 0 = omega arith in z),
      ),
      refl,
      refl,
    )
