-- ===== src/Tcp/Buffer/Prepend.antt =====
-- `Prepend`, and what it does to a later `Append`.
use c_cloud_storage.Prelude.{
  ℕ, ◌+◌, ◌-◌, ◌^◌, ◌≤◌, ◌<◌, ◌≡◌, some, ◌++◌, length, take, arith, Bytes, take-append_ge,
  drop-append_ge, length-take,
}
use c_cloud_storage.Tcp.Buffer.{
  Buffer, overwrite, slice, prepend, make_space, peek_all_as_string, prepend_index, writable_bytes,
  prependable_bytes, readable_bytes,
}
use c_cloud_storage.Tcp.Buffer.Bounds.{length-overwrite}

-- The order of the indices, which `Prepend` keeps too.
pub record IsOrdered (b : Buffer) : Type 0 where
  pub ordered : b.read_index ≤ b.write_index
  pub fits : b.write_index ≤ length b.buf
  pub small : length b.buf < 2 ^ 64

slice_before :
    (v : Bytes) (i k n : ℕ) (src : Bytes)
    → k ≡ length src + n
    → i + length src ≤ length v
    → slice (overwrite v i src) i k ≡ src ++ slice v (i + length src) n
unfolding overwrite slice
slice_before v i k n src e h =
    rw (drop-append_ge i 0 (take i v) _ (omega (arith, length-take i v)))
      (take-append_ge k n src _ e)

-- `Prepend` of bytes for which there is room before the readable ones succeeds, puts them in front
-- of these and keeps the indices in order and inside the vector.
prepend_lem :
    {b : Buffer} (msg : Bytes)
    → IsOrdered b
    → length msg ≤ prependable_bytes b
    → (c : Buffer) × (prepend b msg ≡ some c)
      × IsOrdered c
      × (peek_all_as_string c ≡ msg ++ peek_all_as_string b)
unfolding prepend peek_all_as_string
prepend_lem {b} msg v h = (
  record b { buf = overwrite b.buf at msg; read_index = at },
  ground arith,
  ground (arith, length-overwrite b.buf at msg),
  ground (arith, slice_before b.buf at (b.write_index - at) (readable_bytes b) msg),
)
  where
    at : ℕ
    at = b.read_index - length msg

-- After a `Prepend` has used the reserved bytes, the test of `makeSpace` wraps: with fewer than 16
-- bytes free in all, it takes the vector to have room, moves the data and puts the write index
-- behind the end of the vector.
make_space_overrun :
    {b : Buffer} (len : ℕ)
    → IsOrdered b
    → writable_bytes b + prependable_bytes b < prepend_index
    → len ≤ 2 ^ 64 - prepend_index
    → length b.buf < (make_space b len).write_index
unfolding make_space
make_space_overrun {b} len v tight h = ground arith
