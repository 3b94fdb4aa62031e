-- ===== src/Http/Context/Headers.antt =====
-- http/HttpContext.cpp, `ParseIncremental`: the loop over the lines of the header.
use c_cloud_storage.Prelude.{
  ℕ, zero, suc, ◌+◌, Bool, true, false, ◌&&◌, not, Option, none, some, [], ◌∷◌, take, drop, ltb,
  ◌==◌, if◌then◌else◌, Bytes, bytes, eqb, find_byte, starts_with, is_empty, get_elem?, is_blank,
}
use c_cloud_storage.Prelude.Dict.{lookup}
use c_cloud_storage.Prelude.Number.{atoll, to_size}
use c_cloud_storage.Http.Request.{
  HttpRequest, HttpMethod, set_method, set_url, set_version, add_header, get_header,
}
use c_cloud_storage.Http.Context.{
  HttpContext, HttpRequestParseState, start, method, invalid_header, complete, Parsed,
}

abbrev pub is_chunked_text : Option Bytes → Bool
is_chunked_text none = false
is_chunked_text (some v) = eqb v (bytes "chunked")

abbrev pub has_header : Option Bytes → Bool
has_header none = false
has_header (some _) = true

-- How long the body is, by the headers. `content_length_` is left alone where neither is there.
unfoldable pub body_mode : HttpContext → HttpContext
unfolding lookup eqb get_header
body_mode c =
    if is_chunked_text (lookup (bytes "Transfer-Encoding") c.request.headers)
    then record c { chunked = true }
    else if has_header (lookup (bytes "Content-Length") c.request.headers)
    then record c {
      content_length = to_size (atoll (get_header (bytes "Content-Length") c.request));
    }
    else c

-- The branch of `ParseIncremental` for the empty line.
unfoldable pub end_headers : HttpContext → HttpContext
unfolding body_mode
end_headers c =
    let d = body_mode (record c { headers_complete = true }) in
    if not d.chunked && d.content_length == 0
    then record d { body_complete = true; state = complete }
    else d

abbrev pub refuse : HttpContext → HttpContext × Bool
refuse c = (record c { state = HttpRequestParseState.invalid }, false)

abbrev pub set_protocol_version : Bytes → HttpRequest → HttpRequest
set_protocol_version proto r =
    if starts_with (bytes "HTTP/") proto then set_version (drop 5 proto) r else r

unfoldable pub request_line : Bytes → HttpContext → HttpContext × Bool
unfolding find_byte set_method set_url set_version starts_with
request_line line c = elim (find_byte b' ' line) [
  | none ↦ refuse c
  | some p1 ↦ elim (find_byte b' ' (drop (p1 + 1) line)) [
    | none ↦ refuse c
    | some n ↦ (
      record c {
        request =
            set_protocol_version (drop (n + 1) (drop (p1 + 1) line))
              (set_url (take n (drop (p1 + 1) line)) (set_method (take p1 line) c.request));
      },
      true,
    )
  ]
]

abbrev pub skip_blanks : Bytes → Bytes
skip_blanks [] = []
skip_blanks (c ∷ s) = let rest = skip_blanks s in if is_blank c then rest else c ∷ s

unfoldable pub header_field : Bytes → HttpContext → HttpContext × Bool
unfolding find_byte add_header
header_field line c = elim (find_byte b':' line) [
  | none ↦ refuse c
  | some colon ↦ (
    record c {
      request = add_header (take colon line) (skip_blanks (drop (colon + 1) line)) c.request;
    },
    true,
  )
]

abbrev pub is_invalid : HttpMethod → Bool
is_invalid HttpMethod.invalid = true
is_invalid _ = false

abbrev pub begin_method : HttpRequestParseState → HttpRequestParseState
begin_method start = method
begin_method s = s

-- What a line that is not empty does.
abbrev pub line_text : Bytes → HttpContext → HttpContext × Bool
line_text line c = if is_invalid c.request.method then request_line line c else header_field line c

-- What one round of the loop over lines comes to.
pub data Line : Type 0 where
  partial_line : Line
  refused : HttpContext → Line
  taken : HttpContext → ℕ → Line
  refused_text : HttpContext → ℕ → Line

abbrev pub text_result : ℕ → HttpContext × Bool → Line
text_result n (c, true) = taken c n
text_result n (c, false) = refused_text c n

-- A line of `len` bytes, with its line break behind it.
unfoldable pub whole_line : Bytes → ℕ → HttpContext → Line
whole_line rest len c =
    if ltb c.limits.max_header_line_len len
    then refused (record c { state = invalid_header })
    else let counted = record c { header_bytes = c.header_bytes + (len + 2) } in
      if ltb c.limits.max_header_bytes counted.header_bytes
      then refused (record counted { state = invalid_header })
      else let begun = record counted { state = begin_method counted.state } in
        if is_empty (take len rest)
        then taken (end_headers begun) (len + 2)
        else text_result (len + 2) (line_text (take len rest) begun)

unfoldable pub next_line : Bytes → HttpContext → Line
next_line rest c = elim (find_byte 13 rest) [
  | none ↦ partial_line
  | some len ↦ elim (get_elem? rest (len + 1)) [
    | none ↦ partial_line
    | some lf ↦
        if lf == 10
        then whole_line rest len c
        else refused (record c { state = HttpRequestParseState.invalid })
  ]
]

unfoldable pub parse_lines : ℕ → HttpContext → Bytes → ℕ → Option Parsed
parse_lines zero c rest consumed = none
parse_lines (suc fuel) c rest consumed =
    if c.headers_complete
    then some (record { ctx = c; consumed = consumed; ok = true })
    else elim (next_line rest c) [
      | partial_line ↦ some (record { ctx = c; consumed = consumed; ok = true })
      | refused d ↦ some (record { ctx = d; consumed = consumed; ok = false })
      | refused_text d n ↦ some (record { ctx = d; consumed = consumed + n; ok = false })
      | taken d n ↦ parse_lines fuel d (drop n rest) (consumed + n)
    ]
