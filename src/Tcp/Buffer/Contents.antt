-- ===== src/Tcp/Buffer/Contents.antt =====
-- The readable bytes of a buffer, and what each operation of Buffer.cpp does to them.
use c_cloud_storage.Prelude.{
  ℕ, ◌+◌, ◌-◌, ◌^◌, ◌≤◌, ◌<◌, ◌≡◌, refl, sym, ap, ◌∙◌, some, [], ◌∷◌, ◌++◌, length, take, drop,
  replicate, length-take, length-drop, take-append_ge, take-append_le, drop-append_le, append_assoc,
  take_all, drop-take, ltb, drop_all, Bool-cases, append-nil, suc, inl, inr, take-append_length,
  arith, Bytes, leb, drop-drop, take-append-drop,
}
use c_cloud_storage.Tcp.Buffer.{
  Buffer, filled, overwrite, slice, make_space, append, ensure_writable_bytes, write_at_end,
  retrieve, retrieve_all, read_fd, prepend_index, readable_bytes, writable_bytes,
  peek_all_as_string,
}
use c_cloud_storage.Tcp.Buffer.Bounds.{IsValid, make_space_lem, length-overwrite, length-slice}

-- Bytes written at offset `w` follow those of `[r, w)`.
slice-overwrite :
    (v : Bytes) (r w k n : ℕ) (src : Bytes)
    → k ≡ n + length src
    → w ≡ r + n
    → w ≤ length v
    → slice (overwrite v w src) r k ≡ slice v r n ++ src
unfolding overwrite slice
slice-overwrite v r w k n src e f h =
    rw
      (drop-append_le r (take w v) (src ++ drop (w + length src) v)
        (omega (arith, length-take w v)))
      (rw (drop-take w r n v f) (
        take-append_ge k (length src) (take n (drop r v)) _
          (omega (arith, length-take n (drop r v), length-drop r v))
        ∙ ap (◌++◌ (take n (drop r v))) (take-append_length src _)))

slice_resize :
    (v z : Bytes) (n r k : ℕ)
    → length v ≤ n
    → r + k ≤ length v
    → slice (take n v ++ z) r k ≡ slice v r k
unfolding slice
slice_resize v z n r k h l =
    rw (take_all n v h, drop-append_le r v z (omega arith))
      (take-append_le k (drop r v) z (omega (arith, length-drop r v)))

pub slice_none : (v : Bytes) (r : ℕ) → slice v r 0 ≡ []
unfolding slice
slice_none v r = refl

pub contents-make_space :
    {b : Buffer} (len : ℕ)
    → IsValid b
    → writable_bytes b < len
    → b.write_index + len < 2 ^ 64
    → peek_all_as_string (make_space b len) ≡ peek_all_as_string b
unfolding make_space peek_all_as_string
contents-make_space {b} len v h small = ground (
  arith,
  length-slice b.buf b.read_index n,
  slice_none b.buf prepend_index,
  slice-overwrite b.buf prepend_index prepend_index (prepend_index + n - prepend_index) 0
      (slice b.buf b.read_index n),
  slice_resize b.buf (replicate (b.write_index + len - length b.buf) 0) (b.write_index + len)
      b.read_index n,
)
  where
    n : ℕ
    n = readable_bytes b

ensure_writable_bytes_lem :
    {b : Buffer} (len : ℕ)
    → IsValid b
    → b.write_index + len < 2 ^ 64
    → (c : Buffer) × (ensure_writable_bytes b len ≡ some c)
      × IsValid c
      × (len ≤ writable_bytes c)
      × (length c.buf ≤ length b.buf + len)
      × (peek_all_as_string c ≡ peek_all_as_string b)
unfolding ensure_writable_bytes
ensure_writable_bytes_lem {b} len v small = elim (Bool-cases (leb len (writable_bytes b))) [
  | inl room ↦ (b, rw room, v, ground arith, omega arith, refl)
  | inr full ↦ (
    make_space b len,
    ground (arith, make_space_lem len v),
    ground (arith, make_space_lem len v),
    ground (arith, make_space_lem len v),
    ground (arith, make_space_lem len v),
    contents-make_space len v (ground arith) small,
  )
]

write_at_end_lem :
    {c : Buffer} (msg : Bytes)
    → IsValid c
    → length msg ≤ writable_bytes c
    → IsValid (write_at_end msg c)
      × (length (write_at_end msg c).buf ≡ length c.buf)
      × (peek_all_as_string (write_at_end msg c) ≡ peek_all_as_string c ++ msg)
unfolding write_at_end peek_all_as_string
write_at_end_lem {c} msg v room = (
  record {
    headroom = v.headroom;
    ordered = omega arith;
    fits = omega (arith, length-overwrite c.buf c.write_index msg);
    small = omega (arith, length-overwrite c.buf c.write_index msg);
  },
  length-overwrite c.buf c.write_index msg (omega arith),
  slice-overwrite c.buf c.read_index c.write_index _ (readable_bytes c) msg (omega arith)
      (omega arith) v.fits,
)

-- Whatever is appended stands behind what was there, and the buffer stays valid: `append` neither
-- fails its assertion nor loses a byte.
pub append_lem :
    {b : Buffer} (msg : Bytes)
    → IsValid b
    → b.write_index + length msg < 2 ^ 64
    → (c : Buffer) × (append b msg ≡ some c)
      × IsValid c
      × (length c.buf ≤ length b.buf + length msg)
      × (peek_all_as_string c ≡ peek_all_as_string b ++ msg)
unfolding append
append_lem {b} [] v small = (b, refl, v, omega arith, sym (append-nil _))
append_lem {b} (x ∷ r) v small =
    let (c, e, w, room, grows, same) = ensure_writable_bytes_lem (suc (length r)) v small in
    let (w', kept, grown) = write_at_end_lem (x ∷ r) w room in
    (write_at_end (x ∷ r) c, ground (arith, e), w', omega arith, grown ∙ ap (λ s. s ++ x ∷ r) same)

drop-slice : (v : Bytes) (r n k m : ℕ) → n ≡ k + m → drop k (slice v r n) ≡ slice v (r + k) m
unfolding slice
drop-slice v r n k m e = drop-take n k m (drop r v) e ∙ ap (take m) (drop-drop (r + k) k r v refl)

-- Retrieving takes bytes off the front: all that is readable may go, and never more.
pub retrieve_lem :
    {b : Buffer} (len : ℕ)
    → IsValid b
    → len ≤ readable_bytes b
    → (c : Buffer) × (retrieve b len ≡ some c)
      × IsValid c
      × (length c.buf ≡ length b.buf)
      × (peek_all_as_string c ≡ drop len (peek_all_as_string b))
unfolding retrieve retrieve_all peek_all_as_string
retrieve_lem {b} len v h = elim (Bool-cases (ltb len n)) [
  | inl some_stay ↦ (
    record b { read_index = b.read_index + len },
    ground arith,
    ground arith,
    refl,
    ground (arith, drop-slice b.buf b.read_index n len (n - len)),
  )
  | inr all_go ↦ (
    retrieve_all b,
    ground arith,
    ground arith,
    refl,
    ground (
      arith,
      slice_none b.buf prepend_index,
      drop_all len (slice b.buf b.read_index n),
      length-slice b.buf b.read_index n,
    ),
  )
]
  where
    n : ℕ
    n = readable_bytes b

-- What the socket delivers stands behind what was there, whether or not it fits the free bytes.
pub read_fd_lem :
    {b : Buffer} (msg : Bytes)
    → IsValid b
    → length b.buf + length msg < 2 ^ 64
    → (c : Buffer) × (read_fd b (filled msg) ≡ some c)
      × IsValid c
      × (length c.buf ≤ length b.buf + length msg)
      × (peek_all_as_string c ≡ peek_all_as_string b ++ msg)
unfolding read_fd write_at_end
read_fd_lem {b} msg v small = elim (Bool-cases (leb (length msg) (writable_bytes b))) [
  | inl room ↦
      let (w, kept, grown) = write_at_end_lem msg v (ground arith) in
      (write_at_end msg b, rw room, w, omega arith, grown)
  | inr full ↦
      let n = writable_bytes b in
      let (w, kept, first) = write_at_end_lem (take n msg) v (omega (arith, length-take n msg)) in
      let (c, e, w', grows, grown) =
        append_lem (drop n msg) w (omega (arith, length-take n msg, length-drop n msg)) in
      (
        c,
        rw full e,
        w',
        omega (arith, length-drop n msg),
        grown
            ∙ ap (λ s. s ++ drop n msg) first
            ∙ append_assoc _ (take n msg) (drop n msg)
            ∙ ap (λ s. peek_all_as_string b ++ s) (take-append-drop n msg),
      )
]
