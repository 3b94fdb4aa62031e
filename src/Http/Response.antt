-- ===== src/Http/Response.antt =====
-- http/HttpResponse.cpp and inc/HttpResponse.h. A status code is its number, since the program
-- casts numbers to `HttpStatusCode`. The constructor leaves `body_type_` unset: `none`.
pub mod Status
pub mod Written
mod Tests
use c_cloud_storage.Prelude.{
  ℕ, ◌+◌, ◌-◌, ◌%◌, ◌^◌, Bool, true, false, ◌&&◌, ◌||◌, not, Option, none, some, List, [], ◌∷◌,
  ◌++◌, length, ltb, ◌==◌, if◌then◌else◌, Bytes, bytes, eqb, is_empty,
}
use c_cloud_storage.Prelude.Dict.{Dict, insert}
use c_cloud_storage.Prelude.Number.{
  ℤ, pos, negsuc, negate, is_negative, is_zero, decimal, decimal_ℤ,
}
use c_cloud_storage.Tcp.Buffer.{Buffer, append, ◌>>=◌}

pub data HttpBodyType : Type 0 where
  html_type file_type : HttpBodyType

pub record HttpResponse : Type 0 where
  pub status_code : ℕ
  pub status_message : Bytes
  pub body : Bytes
  pub close_connection : Bool
  pub headers : Dict Bytes
  pub content_length : ℤ
  pub filefd : ℤ
  pub body_type : Option HttpBodyType
  pub async_pending : Bool
  pub has_range : Bool
  pub range_start : ℤ
  pub range_end : ℤ
  pub total_length : ℤ

abbrev pub create : Bool → HttpResponse
create close = record {
  status_code = Status.unknown;
  status_message = [];
  body = [];
  close_connection = close;
  headers = [];
  content_length = pos 0;
  filefd = negsuc 0;
  body_type = none;
  async_pending = false;
  has_range = false;
  range_start = pos 0;
  range_end = negsuc 0;
  total_length = negsuc 0;
}

unfoldable pub add_header : Bytes → Bytes → HttpResponse → HttpResponse
add_header key value r = record r { headers = insert key value r.headers }

unfoldable pub set_content_type : Bytes → HttpResponse → HttpResponse
unfolding add_header
set_content_type text r = add_header (bytes "Content-Type") text r

abbrev pub crlf : Bytes
crlf = 13 ∷ 10 ∷ []

-- One header line.
abbrev pub header_line : Bytes → Bytes → Bytes
header_line key value = key ++ (bytes ": " ++ (value ++ crlf))

abbrev pub header_lines : Dict Bytes → Bytes
header_lines [] = []
header_lines ((k, v) ∷ m) = header_line k v ++ header_lines m

abbrev pub status_line : ℕ → Bytes → Bytes
status_line code text = bytes "HTTP/1.1 " ++ (decimal code ++ (b' ' ∷ (text ++ crlf)))

unfoldable pub get_before_body : HttpResponse → Bytes
get_before_body r =
    status_line r.status_code r.status_message
    ++ ((if r.close_connection
          then header_line (bytes "Connection") (bytes "close")
          else header_line (bytes "Content-Length") (decimal_ℤ r.content_length)
            ++ header_line (bytes "Connection") (bytes "Keep-Alive"))
        ++ (header_lines r.headers ++ crlf))

unfoldable pub get_message : HttpResponse → Bytes
unfolding get_before_body
get_message r = get_before_body r ++ r.body

abbrev pub status_text : ℕ → Bytes
status_text code =
    if code == Status.ok
    then bytes "OK"
    else if code == Status.partial_content
    then bytes "Partial Content"
    else if code == Status.bad_request
    then bytes "Bad Request"
    else if code == Status.not_found
    then bytes "Not Found"
    else if code == Status.forbidden
    then bytes "Forbidden"
    else if code == Status.range_not_satisfiable
    then bytes "Range Not Satisfiable"
    else if code == Status.internal_server_error
    then bytes "Internal Server Error"
    else []

-- Headers that are written from the fields, not from the map.
abbrev pub is_written : Bytes → Bool
is_written key =
    eqb key (bytes "Content-Length")
    || (eqb key (bytes "Content-Range") || eqb key (bytes "Connection"))

abbrev pub other_header_lines : Dict Bytes → Bytes
other_header_lines [] = []
other_header_lines ((k, v) ∷ m) =
    (if is_written k then [] else header_line k v) ++ other_header_lines m

abbrev pub length_lines : HttpResponse → Bytes
length_lines r =
    if not r.close_connection && (is_zero r.content_length && not (is_empty r.body))
    then header_line (bytes "Content-Length") (decimal (length r.body))
    else if not (is_negative r.content_length) && not (is_zero r.content_length)
    then header_line (bytes "Content-Length") (decimal_ℤ r.content_length)
    else []

-- `range_end_ - range_start_ + 1` of the integers
abbrev pub range_length : ℤ → ℤ → ℤ
range_length (pos a) (pos b) = if ltb (b + 1) a then negate (a - (b + 1)) else pos (b + 1 - a)
range_length (pos a) (negsuc b) = negate (a + b)
range_length (negsuc a) (pos b) = pos (b + 1 + a + 1)
range_length (negsuc a) (negsuc b) = if ltb (a + 1) b then negate (b - (a + 1)) else pos (a + 1 - b)

abbrev pub range_lines : HttpResponse → Bytes
range_lines r =
    header_line (bytes "Content-Range") (
      bytes "bytes "
      ++ (decimal_ℤ r.range_start
          ++ (b'-'
              ∷ (decimal_ℤ r.range_end
                  ++ (b'/'
                      ∷ (if is_negative r.total_length
                          then bytes "*"
                          else decimal_ℤ r.total_length))))))
    ++ header_line (bytes "Content-Length") (decimal_ℤ (range_length r.range_start r.range_end))

-- The `const_cast` at the top of `AppendToBuffer`.
abbrev pub ranged : HttpResponse → HttpResponse
ranged r =
    if r.has_range && r.status_code == Status.ok
    then record r { status_code = Status.partial_content }
    else r

abbrev pub head_text : HttpResponse → Bytes
head_text r =
    status_line r.status_code
      (if is_empty r.status_message then status_text r.status_code else r.status_message)
    ++ (header_line (bytes "Connection")
          (if r.close_connection then bytes "close" else bytes "Keep-Alive")
        ++ ((if r.has_range then range_lines r else length_lines r)
            ++ (other_header_lines r.headers ++ crlf)))

unfoldable pub append_to_buffer : HttpResponse → Buffer → Option (HttpResponse × Buffer)
append_to_buffer r out = do
  headed ← append out (head_text (ranged r))
  full ← (if is_empty r.body then some headed else append headed r.body)
  some (ranged r, full)

-- `start < 0 || end < start`
abbrev is_backwards : ℤ → ℤ → Bool
is_backwards (pos a) (pos b) = ltb b a
is_backwards _ _ = true

unfoldable pub set_content_range : ℤ → ℤ → ℤ → HttpResponse → HttpResponse × Bool
set_content_range start end total r = if is_backwards start end then (r, false) else (
  record r { range_start = start; range_end = end; total_length = total; has_range = true },
  true,
)

-- `static_cast<int>` of a size
abbrev pub to_int : ℕ → ℤ
to_int n = let low = n % 2 ^ 32 in if ltb low (2 ^ 31) then pos low else negate (2 ^ 32 - low)

unfoldable pub make_simple : Bool → ℕ → Bytes → Bytes → HttpResponse
unfolding set_content_type
make_simple close code msg body =
    set_content_type (bytes "text/plain; charset=utf-8") (record (create close) {
      status_code = code;
      status_message = msg;
      body = body;
      body_type = some html_type;
      content_length = to_int (length body);
    })
