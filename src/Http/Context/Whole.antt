-- ===== src/Http/Context/Whole.antt =====
-- http/HttpContext.cpp: `ParseRequest`, which reads a whole request byte by byte. `start`, `colon`
-- and `end` are offsets into the data. The byte past the end, which it reads too, is the end of the
-- string, 0. `threw`: a string was made from an offset to one before it.
use c_cloud_storage.Prelude.{
  ℕ, zero, suc, ◌+◌, ◌-◌, Bool, true, false, ◌&&◌, ◌||◌, not, Option, none, some, length, take,
  drop, ltb, leb, ◌==◌, if◌then◌else◌, Bytes, bytes, get_elem?, is_blank, is_digit, is_upper,
}
use c_cloud_storage.Prelude.Dict.{lookup}
use c_cloud_storage.Prelude.Number.{atoll, to_size}
use c_cloud_storage.Tcp.Buffer.{◌>>=◌}
use c_cloud_storage.Http.Request.{
  HttpRequest, set_method, set_url, set_version, set_protocol, set_request_params, add_header,
  get_header, append_body,
}
use c_cloud_storage.Http.Context.{
  HttpContext, HttpRequestParseState, start, method, before_url, in_url, before_url_param_key,
  url_param_key, before_url_param_value, url_param_value, before_protocol, protocol, before_version,
  version, header_key, header_value, when_cr, cr_lf, cr_lf_cr, body, complete, invalid_version,
  is_complete,
}
use c_cloud_storage.Http.Context.Headers.{is_chunked_text, has_header}

pub record Scan : Type 0 where
  pub ctx : HttpContext
  pub begin : ℕ
  pub colon : ℕ
  pub end : ℕ

-- `std::string(first, last)`
abbrev pub between : Bytes → ℕ → ℕ → Option Bytes
between input first last =
    if leb first last then some (take (last - first) (drop first input)) else none

abbrev pub byte_at : Bytes → ℕ → ℕ
byte_at input i = elim (get_elem? input i) [ none ↦ 0 | some b ↦ b ]

abbrev pub is_cr : ℕ → Bool
is_cr b = b == 13

abbrev pub is_lf : ℕ → Bool
is_lf b = b == 10

abbrev pub goes : HttpRequestParseState → Scan → Scan
goes st s = record s { ctx = record s.ctx { state = st } }

abbrev pub starts_at : ℕ → Scan → Scan
starts_at i s = record s { begin = i }

abbrev pub on_request : (HttpRequest → HttpRequest) → Scan → Scan
on_request f s = record s { ctx = record s.ctx { request = f s.ctx.request } }

-- The text from `start` to here is stored, and the next one starts behind it.
abbrev pub store :
    Bytes → (Bytes → HttpRequest → HttpRequest) → ℕ → HttpRequestParseState → Scan → Option Scan
store input f next st s = do
  word ← between input s.begin s.end
  some (goes st (starts_at next (on_request (f word) s)))

-- The parameter from `start` to the equals sign, and from there to here.
abbrev pub store_param : Bytes → HttpRequestParseState → Scan → Option Scan
store_param input st s = do
  key ← between input s.begin s.colon
  value ← between input (s.colon + 1) s.end
  some (goes st (starts_at (s.end + 1) (on_request (set_request_params key value) s)))

-- The value of a header begins two bytes behind its colon.
abbrev pub store_header : Bytes → Scan → Option Scan
store_header input s = do
  key ← between input s.begin s.colon
  value ← between input (s.colon + 2) s.end
  some (goes when_cr (starts_at (s.end + 1) (on_request (add_header key value) s)))

abbrev pub done : HttpContext → HttpContext
done c = record c { body_complete = true; state = complete }

-- Behind the last header.
unfoldable pub whole_mode : HttpContext → HttpContext
unfolding lookup get_header
whole_mode c =
    if is_chunked_text (lookup (bytes "Transfer-Encoding") c.request.headers)
    then record c { headers_complete = true; chunked = true; state = body }
    else if has_header (lookup (bytes "Content-Length") c.request.headers)
    then (let d = record c {
      headers_complete = true;
      content_length = to_size (atoll (get_header (bytes "Content-Length") c.request));
    } in
        if ltb 0 d.content_length then record d { state = body } else done d)
    else done (record c { headers_complete = true })

abbrev pub bad : Scan → Option Scan
bad s = some (goes HttpRequestParseState.invalid s)

abbrev pub on_param_start : ℕ → HttpRequestParseState → Scan → Option Scan
on_param_start ch st s = if is_cr ch || (is_lf ch || is_blank ch) then bad s else some (goes st s)

-- One byte, in the states before the body.
unfoldable pub scan_byte : Bytes → HttpRequestParseState → ℕ → Scan → Option Scan
unfolding set_method set_url set_version set_protocol set_request_params add_header whole_mode
scan_byte input start ch s =
    if is_cr ch || (is_lf ch || is_blank ch)
    then some s
    else if is_upper ch
    then some (starts_at s.end (goes method s))
    else bad s
scan_byte input method ch s =
    if is_blank ch then store input set_method (s.end + 1) before_url s else some s
scan_byte input before_url ch s =
    if ch == b'/'
    then some (starts_at s.end (goes in_url s))
    else if not (is_blank ch)
    then bad s
    else some s
scan_byte input in_url ch s =
    if ch == b'?'
    then store input set_url (s.end + 1) before_url_param_key s
    else if is_blank ch
    then store input set_url (s.end + 1) before_protocol s
    else some s
scan_byte input before_url_param_key ch s = on_param_start ch url_param_key s
scan_byte input url_param_key ch s =
    if ch == b'='
    then some (goes before_url_param_value (record s { colon = s.end }))
    else if is_blank ch
    then bad s
    else some s
scan_byte input before_url_param_value ch s = on_param_start ch url_param_value s
scan_byte input url_param_value ch s =
    if ch == b'&'
    then store_param input before_url_param_key s
    else if is_blank ch
    then store_param input before_protocol s
    else some s
scan_byte input before_protocol ch s =
    if not (is_blank ch) then some (starts_at s.end (goes protocol s)) else some s
scan_byte input protocol ch s =
    if ch == b'/' then store input set_protocol (s.end + 1) before_version s else some s
scan_byte input before_version ch s =
    if is_digit ch then some (starts_at s.end (goes version s)) else bad s
scan_byte input version ch s =
    if is_cr ch
    then store input set_version (s.end + 1) when_cr s
    else if not (ch == b'.' || is_digit ch)
    then some (goes invalid_version s)
    else some s
scan_byte input when_cr ch s =
    if is_lf ch then some (starts_at (s.end + 1) (goes cr_lf s)) else bad s
scan_byte input cr_lf ch s =
    if is_cr ch
    then some (goes cr_lf_cr s)
    else if is_blank ch
    then bad s
    else some (goes header_key s)
scan_byte input header_key ch s =
    if ch == b':' then some (goes header_value (record s { colon = s.end })) else some s
scan_byte input header_value ch s = if is_cr ch then store_header input s else some s
scan_byte input cr_lf_cr ch s =
    if is_lf ch then some (record s { ctx = whole_mode s.ctx }) else bad s
scan_byte input st ch s = bad s

-- All that is left is taken as the body.
abbrev pub absorbed : ℕ → HttpContext → HttpContext
absorbed n c = record c {
  received_body_bytes = c.received_body_bytes + n;
  body_complete =
      c.body_complete || (c.chunked || leb c.content_length (c.received_body_bytes + n));
}

abbrev pub finish : HttpContext → HttpContext
finish c = if c.body_complete then record c { state = complete } else c

abbrev pub take_body : Bytes → HttpContext → HttpContext
take_body part c = finish (
    absorbed (length part)
      (if length part == 0 then c else record c { request = append_body part c.request }))

unfoldable pub scan_body : Bytes → Scan → Scan
unfolding append_body
scan_body input s = record s { ctx = take_body (drop s.end input) s.ctx; end = length input }

abbrev pub is_invalid_state : HttpRequestParseState → Bool
is_invalid_state HttpRequestParseState.invalid = true
is_invalid_state _ = false

abbrev pub is_body : HttpRequestParseState → Bool
is_body body = true
is_body _ = false

pub data Run : Type 0 where
  ended running : Scan → Run
  threw : Run

abbrev pub next_byte : (Scan → Run) → ℕ → Option Scan → Run
next_byte again here none = threw
next_byte again here (some s) = again (record s { end = here + 1 })

abbrev pub goes_on : Bytes → Scan → Bool
goes_on input s =
    not (is_invalid_state s.ctx.state)
    && (not (is_complete s.ctx.state) && leb s.end (length input))

unfoldable pub scan_loop : ℕ → Bytes → Scan → Run
unfolding scan_byte scan_body
scan_loop zero input s = running s
scan_loop (suc fuel) input s =
    let again : Scan → Run = scan_loop fuel input in
    if goes_on input s
    then (if is_body s.ctx.state
        then again (scan_body input s)
        else next_byte again s.end (scan_byte input s.ctx.state (byte_at input s.end) s))
    else ended s

abbrev pub scan_from : HttpContext → Scan
scan_from c = record { ctx = c; begin = 0; colon = 0; end = 0 }

-- Each byte takes a round, the one past the end too, and the last round finds that it is over.
unfoldable pub parse_request : HttpContext → Bytes → Run
unfolding scan_loop
parse_request c input = scan_loop (length input + 2) input (scan_from c)

-- What `ParseRequest` returns.
abbrev pub parse_result : HttpContext → Bool
parse_result c = is_complete c.state || is_body c.state
