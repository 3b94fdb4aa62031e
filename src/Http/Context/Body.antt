-- ===== src/Http/Context/Body.antt =====
-- http/HttpContext.cpp: `ParseBodyBlock` and `ParseChunkedBlock`.
use c_cloud_storage.Prelude.{
  ℕ, zero, suc, ◌+◌, ◌-◌, ◌*◌, min, true, false, Option, none, some, [], ◌∷◌, ◌++◌, length, take,
  drop, leb, ◌==◌, if◌then◌else◌, Bytes,
}
use c_cloud_storage.Prelude.Number.{strtoul_16}
use c_cloud_storage.Http.Request.{append_body}
use c_cloud_storage.Http.Context.{
  HttpContext, complete, ChunkState, size, size_cr, in_data, data_cr, data_lf, trailers, last_cr,
  Parsed, sub_size,
}

-- The context with the next `n` bytes of the body.
abbrev pub grow : ℕ → Bytes → HttpContext → HttpContext
grow n part c = record c {
  request = append_body (take n part) c.request;
  received_body_bytes = c.received_body_bytes + n;
}

abbrev pub finish : HttpContext → HttpContext
finish c =
    if leb c.content_length c.received_body_bytes
    then record c { body_complete = true; state = complete }
    else c

abbrev pub body_block : ℕ → HttpContext → Bytes → Parsed
body_block n c part = record {
  ctx = finish (if n == 0 then c else grow n part c);
  consumed = n;
  ok = true;
}

unfoldable pub parse_body_block : HttpContext → Bytes → Parsed
parse_body_block c part =
    let need = sub_size c.content_length c.received_body_bytes in
    body_block (min need (length part)) c part

-- What one round of the loop of `ParseChunkedBlock` comes to: a context and the bytes that it took,
-- or a protocol error.
pub data Round : Type 0 where
  took : HttpContext → ℕ → Round
  protocol_error : Round

abbrev pub expect : ℕ → ℕ → HttpContext → Round
expect want c next = if c == want then took next 1 else protocol_error

-- `chunk_size_buf_` is read as a hexadecimal number and emptied.
abbrev pub read_size : HttpContext → HttpContext
read_size c =
    let n = strtoul_16 c.chunk_size_buf in
    record c {
      current_chunk_size = n;
      chunk_size_buf = [];
      chunk_state = if n == 0 then trailers else in_data;
    }

abbrev pub take_data : Bytes → HttpContext → Round
take_data rest c =
    let n = min c.current_chunk_size (length rest) in
    took
      (record c {
        request = append_body (take n rest) c.request;
        current_chunk_size = c.current_chunk_size - n;
        chunk_state = if c.current_chunk_size - n == 0 then data_cr else in_data;
      })
      n

-- `b` is the first byte of `rest`.
unfoldable pub chunk_round : ChunkState → ℕ → Bytes → HttpContext → Round
chunk_round size b rest c =
    took
      (if b == 13
        then record c { chunk_state = size_cr }
        else record c { chunk_size_buf = c.chunk_size_buf ++ b ∷ [] })
      1
chunk_round size_cr b rest c = expect 10 b (read_size c)
chunk_round in_data b rest c = take_data rest c
chunk_round data_cr b rest c = expect 13 b (record c { chunk_state = data_lf })
chunk_round data_lf b rest c = expect 10 b (record c { chunk_state = size })
chunk_round trailers b rest c = took (if b == 13 then record c { chunk_state = last_cr } else c) 1
chunk_round last_cr b rest c = expect 10 b (record c { body_complete = true; state = complete })

unfoldable pub chunk_loop : ℕ → HttpContext → Bytes → ℕ → Option Parsed
chunk_loop zero c rest consumed = none
chunk_loop (suc fuel) c [] consumed = some (record { ctx = c; consumed = consumed; ok = true })
chunk_loop (suc fuel) c (b ∷ s) consumed =
    if c.body_complete
    then some (record { ctx = c; consumed = consumed; ok = true })
    else elim (chunk_round c.chunk_state b (b ∷ s) c) [
      | protocol_error ↦ some (record { ctx = c; consumed = consumed; ok = false })
      | took d n ↦ chunk_loop fuel d (drop n (b ∷ s)) (consumed + n)
    ]

-- A round takes a byte, or leaves a chunk that has none to come.
abbrev pub chunk_fuel : Bytes → ℕ
chunk_fuel part = 2 * length part + 2

unfoldable pub parse_chunked_block : HttpContext → Bytes → Option Parsed
parse_chunked_block c part = chunk_loop (chunk_fuel part) c part 0
