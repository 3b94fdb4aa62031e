-- ===== src/Tcp/Buffer/Queue.antt =====
-- A buffer behaves as a queue of bytes, through any calls of `Append`, `readFd`,
-- `RetrieveAsString`, `RetrieveAllAsString`.
use c_cloud_storage.Prelude.{
  ℕ, ◌+◌, ◌^◌, ◌≤◌, ◌<◌, ◌≡◌, refl, Option, none, some, List, [], ◌∷◌, ◌++◌, length, take, drop,
  take-take, arith, Bytes, if◌then◌else◌, leb, Bool-cases, inl, inr,
}
use c_cloud_storage.Tcp.Buffer.{
  Buffer, ◌>>=◌, filled, append, read_fd, retrieve_all, retrieve_as_string, retrieve_all_as_string,
  peek_as_string, peek_all_as_string, readable_bytes, create, slice, prepend_index,
}
use c_cloud_storage.Tcp.Buffer.Bounds.{IsValid, length-slice}
use c_cloud_storage.Tcp.Buffer.Contents.{append_lem, read_fd_lem, retrieve_lem, slice_none}

pub data Op : Type 0 where
  put fill : Bytes → Op
  get : ℕ → Op
  get_all : Op

-- What the calls return in turn; `none` if an assertion fails.
unfoldable pub run : Buffer → List Op → Option (List Bytes)
unfolding append read_fd retrieve_as_string retrieve_all_as_string
run b [] = some []
run b (put msg ∷ ops) = do c ← append b msg; run c ops
run b (fill msg ∷ ops) = do c ← read_fd b (filled msg); run c ops
run b (get n ∷ ops) = do (out, c) ← retrieve_as_string b n; outs ← run c ops; some (out ∷ outs)
run b (get_all ∷ ops) = do
  outs ← run (retrieve_all_as_string b).1 ops
  some ((retrieve_all_as_string b).0 ∷ outs)

-- The same calls on the bytes alone.
abbrev pub queue : Bytes → List Op → Option (List Bytes)
queue q [] = some []
queue q (put msg ∷ ops) = queue (q ++ msg) ops
queue q (fill msg ∷ ops) = queue (q ++ msg) ops
queue q (get n ∷ ops) =
    let outs = queue (drop n q) ops in
    if leb n (length q) then (do l ← outs; some (take n q ∷ l)) else none
queue q (get_all ∷ ops) = do outs ← queue [] ops; some (q ∷ outs)

-- The bytes that the calls put in.
abbrev pub volume : List Op → ℕ
volume [] = 0
volume (put msg ∷ ops) = length msg + volume ops
volume (fill msg ∷ ops) = length msg + volume ops
volume (_ ∷ ops) = volume ops

pub create-IsValid : IsValid create
unfolding create
create-IsValid = record {
  headroom = omega arith;
  ordered = omega arith;
  fits = omega arith;
  small = omega arith;
}

retrieve_all_lem :
    {b : Buffer}
    → IsValid b
    → IsValid (retrieve_all b)
      × (length (retrieve_all b).buf ≡ length b.buf)
      × (peek_all_as_string (retrieve_all b) ≡ [])
unfolding retrieve_all peek_all_as_string
retrieve_all_lem {b} v = (ground arith, refl, slice_none b.buf prepend_index)

pub length-contents : {b : Buffer} → IsValid b → length (peek_all_as_string b) ≡ readable_bytes b
unfolding peek_all_as_string
length-contents {b} v = length-slice b.buf b.read_index (readable_bytes b) (omega arith)

peek_as_string_lem :
    {b : Buffer} (n : ℕ)
    → IsValid b
    → n ≤ readable_bytes b
    → peek_as_string b n ≡ some (take n (peek_all_as_string b))
unfolding peek_as_string peek_all_as_string slice
peek_as_string_lem {b} n v h =
    ground (arith, take-take n (readable_bytes b) (drop b.read_index b.buf))

retrieve_as_string_lem :
    {b : Buffer} (n : ℕ)
    → IsValid b
    → n ≤ readable_bytes b
    → (c : Buffer) × (retrieve_as_string b n ≡ some (take n (peek_all_as_string b), c))
      × IsValid c
      × (length c.buf ≡ length b.buf)
      × (peek_all_as_string c ≡ drop n (peek_all_as_string b))
unfolding retrieve_as_string
retrieve_as_string_lem {b} n v h =
    let (c, e, w, kept, rest) = retrieve_lem n v h in
    (c, rw (peek_as_string_lem n v h, e), w, kept, rest)

retrieve_as_string_short :
    (b : Buffer) (n : ℕ) → readable_bytes b < n → retrieve_as_string b n ≡ none
unfolding retrieve_as_string peek_as_string
retrieve_as_string_short b n h = ground arith

-- From a valid buffer, any sequence of calls returns what the queue of its readable bytes returns,
-- and fails an assertion exactly where the queue holds too few bytes, if the bytes put in leave
-- the size of the vector below 2^64.
pub run_refines :
    (ops : List Op) {b : Buffer}
    → IsValid b
    → length b.buf + volume ops < 2 ^ 64
    → run b ops ≡ queue (peek_all_as_string b) ops
unfolding run
run_refines [] v small = refl
run_refines (put msg ∷ ops) {b} v small =
    let (c, e, w, grows, same) = append_lem msg v (omega arith) in
    rw (e, ← same) (run_refines ops w (omega arith))
run_refines (fill msg ∷ ops) {b} v small =
    let (c, e, w, grows, same) = read_fd_lem msg v (omega arith) in
    rw (e, ← same) (run_refines ops w (omega arith))
run_refines (get n ∷ ops) {b} v small = elim (Bool-cases (leb n (readable_bytes b))) [
  | inl enough ↦
      let (c, e, w, kept, rest) = retrieve_as_string_lem n v (ground arith) in
      rw (e, length-contents v, enough, ← rest) (rw (run_refines ops w (omega arith)))
  | inr short ↦ rw (retrieve_as_string_short b n (ground arith), length-contents v, short)
]
run_refines (get_all ∷ ops) {b} v small =
    let (w, kept, gone) = retrieve_all_lem v in
    unfold retrieve_all_as_string in rw (run_refines ops w (omega arith), gone)
