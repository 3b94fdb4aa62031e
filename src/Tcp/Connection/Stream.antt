-- ===== src/Tcp/Connection/Stream.antt =====
-- What is sent arrives in order: the bytes that the socket took, and behind them those in the
-- buffer, are the bytes that were sent.
use c_cloud_storage.Prelude.{
  ◌+◌, ◌^◌, ◌<◌, ◌≡◌, refl, sym, ap, ◌∙◌, Option, some, List, [], ◌∷◌, ◌++◌, length, Bytes, arith,
  append_assoc, append-nil, length-append,
}
use c_cloud_storage.Tcp.Buffer.{◌>>=◌}
use c_cloud_storage.Tcp.Connection.{Connection, send, write}
use c_cloud_storage.Tcp.Connection.Sending.{IsReady, backlog, Sends, send_lem, write-Sends}

-- What happens to the sending side: the user sends, or the socket can be written to.
pub data Act : Type 0 where
  sends : Bytes → Act
  writable : Act

abbrev pub act : Act → Connection → Option Connection
act (sends msg) c = send msg c
act writable c = write c

unfoldable pub run : List Act → Connection → Option Connection
unfolding send write
run [] c = some c
run (a ∷ acts) c = do d ← act a c; run acts d

abbrev pub bytes_of : Act → Bytes
bytes_of (sends msg) = msg
bytes_of writable = []

abbrev pub sent : List Act → Bytes
sent [] = []
sent (a ∷ acts) = bytes_of a ++ sent acts

pub act-Sends :
    (a : Act) (c : Connection)
    → IsReady c
    → length c.send_buffer.buf + length (bytes_of a) < 2 ^ 64
    → Sends c (bytes_of a) (act a c)
act-Sends (sends msg) c h small = send_lem msg c h small
act-Sends writable c h small = write-Sends c h

pub run_next :
    (a : Act) (acts : List Act) (c d : Connection)
    → act a c ≡ some d
    → run (a ∷ acts) c ≡ run acts d
unfolding run
run_next a acts c d e = ap (λ o. o >>= run acts) e

-- No byte is lost, doubled or moved on its way out: after any calls of `Send` and `HandleWrite`, in
-- any order and whatever parts the socket takes of what is written, the bytes that it took,
-- followed by those that wait in the buffer, are those of before, followed by the bytes of the
-- calls of `Send` in order. The calls succeed as long as no `write` reports an error and the send
-- buffer stays below 2^64 bytes.
pub run_stream :
    (acts : List Act) (c : Connection)
    → IsReady c
    → length c.send_buffer.buf + length (sent acts) < 2 ^ 64
    → (d : Connection) × (run acts c ≡ some d) × IsReady d × (backlog d ≡ backlog c ++ sent acts)
run_stream [] c h small = (c, unfold run in refl, h, sym (append-nil (backlog c)))
run_stream (a ∷ acts) c h small =
    let (d, e, r, more, grows) =
      act-Sends a c h (omega (arith, length-append (bytes_of a) (sent acts))) in
    let (d', e', r', more') =
      run_stream acts d r (omega (arith, length-append (bytes_of a) (sent acts))) in
    (
      d',
      run_next a acts c d e ∙ e',
      r',
      more' ∙ ap (λ s. s ++ sent acts) more ∙ append_assoc (backlog c) (bytes_of a) (sent acts),
    )
