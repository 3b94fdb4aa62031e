-- ===== src/Tcp/Buffer.antt =====
-- mymuduo/tcp/Buffer.cpp and inc/Buffer.h: one vector with a read and a write index. `size_t`
-- arithmetic that may wrap is written out modulo 2^64; sums of lengths stay below that. A failed
-- `assert` is `none`. A pointer into the buffer is the offset of the byte it points at. The free
-- bytes of the vector are its contents between the write index and its end.
pub mod Bounds
pub mod Contents
pub mod Queue
pub mod Prepend
mod Tests
use c_cloud_storage.Prelude.{
  ℕ, zero, suc, ◌+◌, ◌-◌, ◌%◌, ◌^◌, Bool, true, false, ◌&&◌, Option, none, some, List, [], ◌∷◌,
  ◌++◌, length, take, drop, replicate, ltb, leb, ◌==◌, if◌then◌else◌, Bytes, bytes, find_byte,
  find_text, map,
}

abbrev pub prepend_index : ℕ
prepend_index = 16

abbrev pub initial_size : ℕ
initial_size = 1024

pub record Buffer : Type 0 where
  pub buf : Bytes
  pub read_index : ℕ
  pub write_index : ℕ

unfoldable pub create : Buffer
create = record {
  buf = replicate initial_size 0;
  read_index = prepend_index;
  write_index = prepend_index;
}

-- `size_t` subtraction
abbrev pub sub_size : ℕ → ℕ → ℕ
sub_size a b = (a + 2 ^ 64 - b) % 2 ^ 64

abbrev pub readable_bytes : Buffer → ℕ
readable_bytes b = sub_size b.write_index b.read_index

abbrev pub writable_bytes : Buffer → ℕ
writable_bytes b = sub_size (length b.buf) b.write_index

abbrev pub prependable_bytes : Buffer → ℕ
prependable_bytes b = b.read_index

-- The bytes of the vector with `src` copied over them from offset `at` on. A copy that runs past
-- the end, which is undefined, lengthens the list.
unfoldable pub overwrite : Bytes → ℕ → Bytes → Bytes
overwrite v i src = take i v ++ (src ++ drop (i + length src) v)

-- `std::string(begin + i, begin + i + n)`
unfoldable pub slice : Bytes → ℕ → ℕ → Bytes
slice v i n = take n (drop i v)

-- The comparison is in `size_t`, where a sum below 16 wraps.
unfoldable pub make_space : Buffer → ℕ → Buffer
make_space b len =
    let readable = readable_bytes b in
    if leb len (sub_size ((writable_bytes b + prependable_bytes b) % 2 ^ 64) prepend_index)
    then record {
      buf = overwrite b.buf prepend_index (slice b.buf b.read_index readable);
      read_index = prepend_index;
      write_index = prepend_index + readable;
    }
    else record b {
      buf = take (b.write_index + len) b.buf ++ replicate (b.write_index + len - length b.buf) 0;
    }

unfoldable pub ensure_writable_bytes : Buffer → ℕ → Option Buffer
unfolding make_space
ensure_writable_bytes b len =
    if leb len (writable_bytes b)
    then some b
    else (let c = make_space b len in if leb len (writable_bytes c) then some c else none)

unfoldable pub write_at_end : Bytes → Buffer → Buffer
write_at_end msg b = record b {
  buf = overwrite b.buf b.write_index msg;
  write_index = b.write_index + length msg;
}

-- `Append(const void *, size_t)`, which the overloads for text come down to.
unfoldable pub append : Buffer → Bytes → Option Buffer
unfolding ensure_writable_bytes
append b msg = if length msg == 0 then some b else elim (ensure_writable_bytes b (length msg)) [
  | none ↦ none
  | some c ↦ some (write_at_end msg c)
]

unfoldable pub retrieve_all : Buffer → Buffer
retrieve_all b = record b { read_index = prepend_index; write_index = prepend_index }

unfoldable pub retrieve : Buffer → ℕ → Option Buffer
unfolding retrieve_all
retrieve b len =
    if leb len (readable_bytes b)
    then some (
        if ltb len (readable_bytes b)
        then record b { read_index = b.read_index + len }
        else retrieve_all b)
    else none

unfoldable pub peek_as_string : Buffer → ℕ → Option Bytes
peek_as_string b len =
    if leb len (readable_bytes b) then some (slice b.buf b.read_index len) else none

unfoldable pub peek_all_as_string : Buffer → Bytes
peek_all_as_string b = slice b.buf b.read_index (readable_bytes b)

infixl 5 ◌>>=◌
abbrev pub ◌>>=◌ {ℓ κ} : {A : Type ℓ} {B : Type κ} → Option A → (A → Option B) → Option B
none >>= f = none
some a >>= f = f a

unfoldable pub retrieve_as_string : Buffer → ℕ → Option (Bytes × Buffer)
unfolding peek_as_string retrieve
retrieve_as_string b len = do result ← peek_as_string b len; c ← retrieve b len; some (result, c)

unfoldable pub retrieve_all_as_string : Buffer → Bytes × Buffer
unfolding peek_all_as_string retrieve_all
retrieve_all_as_string b = (peek_all_as_string b, retrieve_all b)

-- `end` is an offset into the vector.
unfoldable pub retrieve_until : Buffer → ℕ → Option Buffer
unfolding retrieve
retrieve_until b end =
    if leb b.read_index end && leb end b.write_index then retrieve b (end - b.read_index) else none

-- The offsets returned count from the read index.
unfoldable pub find_crlf : Buffer → Option ℕ
unfolding peek_all_as_string find_text
find_crlf b = find_text (13 ∷ 10 ∷ []) (peek_all_as_string b)

unfoldable pub find_eol : Buffer → Option ℕ
unfolding peek_all_as_string find_byte
find_eol b = find_byte b'\n' (peek_all_as_string b)

unfoldable pub prepend : Buffer → Bytes → Option Buffer
prepend b msg =
    if leb (length msg) (prependable_bytes b)
    then some (record b {
      buf = overwrite b.buf (b.read_index - length msg) msg;
      read_index = b.read_index - length msg;
    })
    else none

-- What `readv` reports: an error, or the bytes that it filled in.
pub data ReadResult : Type 0 where
  failed : ℕ → ReadResult
  filled : Bytes → ReadResult

-- `readv` fills the free bytes first and `extrabuf` behind them; what is in the second is copied in
-- by `Append`. How many bytes `readv` fills in is up to it.
unfoldable pub read_fd : Buffer → ReadResult → Option Buffer
unfolding append
read_fd b (failed errno) = some b
read_fd b (filled msg) =
    if leb (length msg) (writable_bytes b)
    then some (write_at_end msg b)
    else append (write_at_end (take (writable_bytes b) msg) b) (drop (writable_bytes b) msg)

-- `toupper` of the C locale
abbrev to_upper_byte : ℕ → ℕ
to_upper_byte c = if leb b'a' c && leb c b'z' then c - 32 else c

unfoldable pub to_upper : Buffer → Buffer
unfolding peek_all_as_string
to_upper b = record b {
  buf = overwrite b.buf b.read_index (map to_upper_byte (peek_all_as_string b));
}
