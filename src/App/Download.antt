-- ===== src/App/Download.antt =====
-- application/src/FileDownContext.cpp, inc/FileDownContext.h. `contents` is what the file holds
-- while it is read, and `get` and `good` are the position and the state of its stream: a read that
-- finds fewer bytes than it asks for leaves zeros in the rest and makes the stream fail, and a
-- stream that has failed neither reads nor moves. `none` is an exception.
use c_cloud_storage.Prelude.{
  ℕ, zero, suc, ◌+◌, ◌-◌, ◌*◌, ◌%◌, ◌^◌, min, Bool, true, false, not, ◌||◌, Option, none, some, [],
  ◌++◌, length, take, drop, replicate, leb, ◌==◌, if◌then◌else◌, Bytes,
}

pub record FileDownContext : Type 0 where
  pub original_filename : Bytes
  pub is_open : Bool
  pub contents : Bytes
  pub get : ℕ
  pub good : Bool
  pub file_size : ℕ
  pub current_position : ℕ
  pub is_complete : Bool

-- `opens` says whether the file can be opened, `size` what the file system says of it.
abbrev pub create : Bool → Bytes → ℕ → Bytes → Option FileDownContext
create opens contents size original =
    if opens
    then some (record {
      original_filename = original;
      is_open = true;
      contents = contents;
      get = 0;
      good = true;
      file_size = size;
      current_position = 0;
      is_complete = false;
    })
    else none

abbrev pub seekg : ℕ → FileDownContext → FileDownContext
seekg position c = if c.good then record c { get = position } else c

unfoldable pub seek_to : ℕ → FileDownContext → Option FileDownContext
seek_to position c =
    if c.is_open
    then some (record (seekg position c) { current_position = position; is_complete = false })
    else none

-- What `file_.read` leaves in a vector of zeros, and the stream after it.
abbrev pub read_bytes : ℕ → FileDownContext → Bytes
read_bytes n c =
    let got : Bytes = if c.good then take n (drop c.get c.contents) else [] in
    got ++ replicate (n - length got) 0

abbrev pub read_stream : ℕ → FileDownContext → FileDownContext
read_stream n c =
    if c.good
    then record c {
      get = c.get + min n (length c.contents - c.get);
      good = leb n (length c.contents - c.get);
    }
    else c

abbrev pub chunk_size : ℕ
chunk_size = 1024 * 1024

-- `fileSize_ - currentPosition_` of unsigned numbers, at most a chunk.
abbrev pub bytes_to_read : FileDownContext → ℕ
bytes_to_read c = min chunk_size ((c.file_size + 2 ^ 64 - c.current_position) % 2 ^ 64)

abbrev pub read_chunk : ℕ → FileDownContext → FileDownContext × Option Bytes
read_chunk n c = if n == 0 then (record c { is_complete = true }, none) else (
  record (read_stream n c) { current_position = (c.current_position + n) % 2 ^ 64 },
  some (read_bytes n c),
)

-- The context and the chunk, if there is one.
unfoldable pub read_next_chunk : FileDownContext → FileDownContext × Option Bytes
read_next_chunk c =
    if not c.is_open || c.is_complete then (c, none) else read_chunk (bytes_to_read c) c

-- All chunks, one after the other. `none`: there are still more.
unfoldable pub read_chunks : ℕ → FileDownContext → Option Bytes
unfolding read_next_chunk
read_chunks zero c = none
read_chunks (suc fuel) c =
    let more : FileDownContext → Option Bytes = read_chunks fuel in
    elim (read_next_chunk c).1 [
      | none ↦ some []
      | some chunk ↦ (elim (more (read_next_chunk c).0) [
        | none ↦ none
        | some s ↦ some (chunk ++ s)
      ])
    ]
