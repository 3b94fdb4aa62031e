-- ===== src/Tcp/Buffer/Bounds.antt =====
-- The indices of the buffer stay in order and inside the vector.
use c_cloud_storage.Prelude.{
  ℕ, ◌+◌, ◌-◌, ◌^◌, ◌≤◌, ◌<◌, ◌≡◌, ◌++◌, length, take, drop, replicate, length-append, length-take,
  length-drop, length-replicate, arith, Bytes,
}
use c_cloud_storage.Tcp.Buffer.{
  Buffer, overwrite, slice, make_space, prepend_index, readable_bytes, writable_bytes,
}

pub record IsValid (b : Buffer) : Type 0 where
  pub headroom : prepend_index ≤ b.read_index
  pub ordered : b.read_index ≤ b.write_index
  pub fits : b.write_index ≤ length b.buf
  pub small : length b.buf < 2 ^ 64

pub length-overwrite :
    (v : Bytes) (i : ℕ) (src : Bytes)
    → i + length src ≤ length v
    → length (overwrite v i src) ≡ length v
unfolding overwrite
length-overwrite v i src h = omega (
  arith,
  length-append (take i v) (src ++ drop (i + length src) v),
  length-append src (drop (i + length src) v),
  length-take i v,
  length-drop (i + length src) v,
)

pub length-slice : (v : Bytes) (i n : ℕ) → i + n ≤ length v → length (slice v i n) ≡ n
unfolding slice
length-slice v i n h = omega (arith, length-take n (drop i v), length-drop i v)

pub length_resize :
    (v : Bytes) (n : ℕ) → length v ≤ n → length (take n v ++ replicate (n - length v) 0) ≡ n
length_resize v n h = omega (
  arith,
  length-append (take n v) (replicate (n - length v) 0),
  length-take n v,
  length-replicate (n - length v) (let z : ℕ = 0 in z),
)

-- Making room moves the data to the front or grows the vector, and room is what it makes.
pub make_space_lem :
    {b : Buffer} (len : ℕ)
    → IsValid b
    → writable_bytes b < len
    → b.write_index + len < 2 ^ 64
    → let c = make_space b len in
      IsValid c
      × (len ≤ writable_bytes c)
      × (readable_bytes c ≡ readable_bytes b)
      × (length c.buf ≤ length b.buf + len)
unfolding make_space
make_space_lem {b} len v h small = ground (
  arith,
  length-slice b.buf b.read_index (readable_bytes b),
  length-overwrite b.buf prepend_index (slice b.buf b.read_index (readable_bytes b)),
  length_resize b.buf (b.write_index + len),
)
