-- ===== src/Http/Context/Tests.antt =====
-- Runs of the parser, and its theorems at concrete inputs.
use c_cloud_storage.Prelude.{◌≡◌, ◌≤◌, true, some, List, [], ◌∷◌, ◌++◌, arith, length, Bytes, bytes}
use c_cloud_storage.Http.Context
use c_cloud_storage.Http.Context.{body}
use c_cloud_storage.Http.Request.{append_body}
use c_cloud_storage.Http.Context.Whole.{Scan}
use c_cloud_storage.Http.Request
use c_cloud_storage.Http.Context.{HttpContext, Parsed, size, reset_context_status}
use c_cloud_storage.Http.Context.Encoding.{
  Chunk, encode_chunks, AreChunks, reading, whole_body, parse_chunked_block-encode_chunks,
}
use c_cloud_storage.Http.Context.Headers.{parse_lines, next_line, whole_line, request_line}
use c_cloud_storage.Http.Request.{get, http11, set_method, set_url, set_version}
use c_cloud_storage.Http.Context.{method}
use c_cloud_storage.Http.Context.Lines.{later_some, parse_lines-append}
use c_cloud_storage.Http.Context.Blocks.{parse_body_block-append}
use c_cloud_storage.Http.Context.Body.{parse_body_block}
use c_cloud_storage.Http.Context.Bytewise.{later}
use c_cloud_storage.Prelude.{find_byte, drop, refl, ◌+◌}
use c_cloud_storage.Prelude.Number.{strtoul_16, skip_spaces, read_sign, skip_0x, parse_digits}
use c_cloud_storage.Http.Context.Body.{parse_chunked_block}
use c_cloud_storage.Http.Context.Incremental.{parse_incremental}
use c_cloud_storage.Http.Context.Progress.{parse_incremental_total}
use c_cloud_storage.Http.Context.Bytewise.{stopped}
use c_cloud_storage.Http.Context.Fragments.{feed, join, parse_chunked_block-fragments}

abbrev post : Bytes
post = bytes "POST /upload HTTP/1.1\r\nContent-Length: 3\r\n\r\nabcGET"

parse_incremental_total_example :
    (p : Parsed) × (parse_incremental Context.create post ≡ some p) × (p.consumed ≤ length post)
parse_incremental_total_example = parse_incremental_total Context.create post

abbrev chunked_body : HttpContext
chunked_body = record Context.create { headers_complete = true; chunked = true }

abbrev wiki : Bytes
wiki = bytes "4\r\nWiki\r\n0\r\n\r\n"

abbrev wiki_pieces : List Bytes
wiki_pieces = bytes "4\r" ∷ bytes "\nWi" ∷ bytes "ki\r\n0" ∷ bytes "\r\n\r\n" ∷ []

parse_chunked_block-fragments_example :
    feed (some (stopped chunked_body true)) wiki_pieces
    ≡ parse_chunked_block chunked_body (join wiki_pieces)
parse_chunked_block-fragments_example = parse_chunked_block-fragments chunked_body wiki_pieces tt

abbrev words : List Chunk
words = (bytes "4", bytes "Wiki") ∷ (bytes "0A;x", bytes "\r\n0\r\n\r\nend") ∷ []

words-AreChunks : AreChunks words
unfolding strtoul_16 skip_spaces read_sign skip_0x parse_digits
words-AreChunks = ground arith

parse_chunked_block-encode_chunks_example :
    parse_chunked_block
      (reading size [] 0 Request.create Context.create)
      (encode_chunks words (bytes "GET / HTTP/1.1"))
    ≡ some (whole_body words Request.create Context.create)
parse_chunked_block-encode_chunks_example =
    parse_chunked_block-encode_chunks words (bytes "GET / HTTP/1.1") Request.create Context.create
      words-AreChunks

abbrev late : HttpContext
late = record Context.create { header_bytes = 16380 }

abbrev cut_line : Bytes
cut_line = bytes "GET /a HTTP/1.1\r\nHost"

abbrev cut_line_rest : Bytes
cut_line_rest = bytes ": x\r\n\r\n"

abbrev first_line : Parsed
first_line = record {
  ctx = record Context.create {
    request = record Request.create { method = get; url = bytes "/a"; version = http11 };
    state = method;
    header_bytes = 17;
  };
  consumed = 17;
  ok = true;
}

first_line_lem : parse_lines (length cut_line + 1) Context.create cut_line 0 ≡ some first_line
unfolding parse_lines next_line whole_line request_line set_method set_url set_version find_byte
first_line_lem = refl

parse_lines-append_example :
    parse_lines
      (length (cut_line ++ cut_line_rest) + 1)
      Context.create
      (cut_line ++ cut_line_rest)
      0
    ≡ later_some 17 (
        parse_lines
          (length (drop 17 cut_line ++ cut_line_rest) + 1)
          first_line.ctx
          (drop 17 cut_line ++ cut_line_rest)
          0)
parse_lines-append_example =
    parse_lines-append Context.create cut_line cut_line_rest first_line first_line_lem refl

abbrev five_bytes : HttpContext
five_bytes = record Context.create { headers_complete = true; content_length = 5 }

parse_body_block-append_example :
    let p = parse_body_block five_bytes (bytes "abc") in
    later p.consumed (parse_body_block p.ctx (drop p.consumed (bytes "abc") ++ bytes "deGET"))
    ≡ parse_body_block five_bytes (bytes "abc" ++ bytes "deGET")
parse_body_block-append_example =
    parse_body_block-append five_bytes (bytes "abc") (bytes "deGET") (omega arith)

-- Two bytes of a body of five.
abbrev waiting : HttpContext
waiting = record Context.create { state = body; headers_complete = true; content_length = 5 }

abbrev waited : Scan
waited = record {
  ctx = record waiting {
    request = record Request.create { body = bytes "ab" };
    received_body_bytes = 2;
  };
  begin = 0;
  colon = 0;
  end = 2;
}
