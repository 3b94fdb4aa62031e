-- ===== src/Tcp/Connection/Files.antt =====
-- mymuduo/tcp/Connection.cpp: `SendFile` and `SendFileRange`. `file` is what the file holds. The
-- loops run over the answers of `sendfile`, which moves no byte past the end of the file; `none` is
-- also a loop that is still running when the answers are used up.
use c_cloud_storage.Prelude.{
  ℕ, ◌+◌, ◌-◌, min, Option, none, some, List, [], ◌∷◌, ◌++◌, length, take, drop, ltb, ◌==◌,
  if◌then◌else◌, Bytes,
}
use c_cloud_storage.Prelude.Number.{ℤ, to_size}
use c_cloud_storage.Tcp.Connection.{
  Connection, SendfileResult, moved, interrupted, again, sendfile_error, send,
}

-- What `sendfile` moves: at most `count` bytes from `offset` on, and not past the end.
abbrev pub movable : ℕ → ℕ → Bytes → ℕ → ℕ
movable n count file offset = min n (min count (length file - offset))

abbrev pub moved_bytes : ℕ → ℕ → Bytes → Connection → Connection
moved_bytes k offset file c = record c { stream = c.stream ++ take k (drop offset file) }

abbrev pub answers_left : List SendfileResult → Connection → Connection
answers_left l c = record c { sendfiles = l }

unfoldable pub send_file_loop : List SendfileResult → Bytes → ℕ → ℕ → Connection → Option Connection
send_file_loop [] file size sent c = if ltb sent size then none else some (answers_left [] c)
send_file_loop (moved n ∷ l) file size sent c =
    let k = movable n (size - sent) file sent in
    let next = send_file_loop l file size (sent + k) (moved_bytes k sent file c) in
    if ltb sent size then next else some (answers_left (moved n ∷ l) c)
send_file_loop (interrupted ∷ l) file size sent c =
    let next = send_file_loop l file size sent c in
    if ltb sent size then next else some (answers_left (interrupted ∷ l) c)
send_file_loop (again m ∷ l) file size sent c =
    let next = send_file_loop l file size sent c in
    if ltb sent size then next else some (answers_left (again m ∷ l) c)
send_file_loop (sendfile_error ∷ l) file size sent c =
    some (answers_left (if ltb sent size then l else sendfile_error ∷ l) c)

unfoldable pub send_file : Bytes → ℤ → Connection → Option Connection
unfolding send_file_loop
send_file file size c = send_file_loop c.sendfiles file (to_size size) 0 c

-- The rest of the range is read and sent through the buffer.
abbrev pub read_and_send : ℕ → ℕ → ℕ → Bytes → Connection → Option Connection
read_and_send m remain offset file c =
    let rn = movable m remain file offset in
    if rn == 0 then some c else send (take rn (drop offset file)) c

unfoldable pub send_file_range_loop :
    List SendfileResult → Bytes → ℕ → ℕ → Connection → Option Connection
unfolding send
send_file_range_loop [] file offset remain c =
    if ltb 0 remain then none else some (answers_left [] c)
send_file_range_loop (moved n ∷ l) file offset remain c =
    let k = movable n remain file offset in
    let next =
      send_file_range_loop l file (offset + k) (remain - k) (moved_bytes k offset file c) in
    if ltb 0 remain
    then (if k == 0 then some (answers_left l c) else next)
    else some (answers_left (moved n ∷ l) c)
send_file_range_loop (interrupted ∷ l) file offset remain c =
    let next = send_file_range_loop l file offset remain c in
    if ltb 0 remain then next else some (answers_left (interrupted ∷ l) c)
send_file_range_loop (again m ∷ l) file offset remain c =
    if ltb 0 remain
    then read_and_send m remain offset file (answers_left l c)
    else some (answers_left (again m ∷ l) c)
send_file_range_loop (sendfile_error ∷ l) file offset remain c =
    some (answers_left (if ltb 0 remain then l else sendfile_error ∷ l) c)

-- `remain` is `len - sent`.
unfoldable pub send_file_range : Bytes → ℕ → ℕ → Connection → Option Connection
unfolding send_file_range_loop
send_file_range file start len c = send_file_range_loop c.sendfiles file start len c
