-- ===== src/Http/Response/Written.antt =====
-- What `AppendToBuffer` leaves in the output buffer.
use c_cloud_storage.Prelude.{
  ℕ, zero, suc, ◌==◌, ◌+◌, ◌^◌, ◌<◌, ◌≡◌, refl, sym, ap, ◌∙◌, Bool, true, false, ◌||◌, Option, none,
  some, List, [], ◌∷◌, ◌++◌, length, arith, Bytes, bytes, eqb, append_assoc, append-nil, is_empty,
  if◌then◌else◌, if_then, if_else,
}
use c_cloud_storage.Prelude.Dict.{Dict}
use c_cloud_storage.Prelude.Number.{ℤ, pos, negsuc, is_negative, decimal, decimal_ℤ}
use c_cloud_storage.Tcp.Buffer.{Buffer, append, peek_all_as_string, ◌>>=◌}
use c_cloud_storage.Tcp.Buffer.Bounds.{IsValid}
use c_cloud_storage.Tcp.Buffer.Contents.{append_lem}
use c_cloud_storage.Http.Response.{
  HttpResponse, head_text, ranged, append_to_buffer, other_header_lines, length_lines, range_lines,
  range_length,
}

-- The body is written unless it is empty.
append_body_lem :
    {b : Buffer} (body : Bytes)
    → IsValid b
    → length b.buf + length body < 2 ^ 64
    → (c : Buffer) × ((if is_empty body then some b else append b body) ≡ some c)
      × IsValid c
      × (peek_all_as_string c ≡ peek_all_as_string b ++ body)
append_body_lem {b} [] v h = (b, refl, v, sym (append-nil (peek_all_as_string b)))
append_body_lem {b} (a ∷ s) v h =
    let (c, e, w, grows, same) = append_lem (a ∷ s) v (omega arith) in (c, e, w, same)

-- The range of a response: its first byte, and how many bytes follow that one.
abbrev pub Describes : HttpResponse → Option (ℕ × ℕ) → Type 0
Describes r none = r.has_range ≡ false
Describes r (some (a, n)) =
    (r.has_range ≡ true) × (r.range_start ≡ pos a) × (r.range_end ≡ pos (a + n))

-- The status that is sent: a range of what is there is partial content.
abbrev pub sent_code : Option (ℕ × ℕ) → ℕ → ℕ
sent_code none code = code
sent_code (some _) code = if code == 200 then 206 else code

abbrev pub phrases : List (ℕ × Bytes)
phrases =
    (200, bytes "OK")
    ∷ ((206, bytes "Partial Content")
        ∷ ((400, bytes "Bad Request")
            ∷ ((404, bytes "Not Found")
                ∷ ((403, bytes "Forbidden")
                    ∷ ((416, bytes "Range Not Satisfiable")
                        ∷ ((500, bytes "Internal Server Error") ∷ []))))))

abbrev pub phrase_in : List (ℕ × Bytes) → ℕ → Bytes
phrase_in [] code = []
phrase_in ((n, text) ∷ l) code = if code == n then text else phrase_in l code

abbrev pub field : Bytes → Bytes → Bytes
field name value = name ++ (bytes ": " ++ (value ++ bytes "\r\n"))

abbrev pub total_text : ℤ → Bytes
total_text (pos n) = decimal n
total_text (negsuc n) = bytes "*"

-- The length that was set or, on a connection that is kept, that of the body.
abbrev pub length_field : ℤ → HttpResponse → Bytes
length_field (pos zero) r =
    if r.close_connection || is_empty r.body
    then []
    else field (bytes "Content-Length") (decimal (length r.body))
length_field (pos (suc n)) r = field (bytes "Content-Length") (decimal (suc n))
length_field (negsuc n) r = []

abbrev pub size_fields : Option (ℕ × ℕ) → HttpResponse → Bytes
size_fields none r = length_field r.content_length r
size_fields (some (a, n)) r =
    field (bytes "Content-Range") (
      bytes "bytes "
      ++ (decimal a
          ++ (bytes "-" ++ (decimal (a + n) ++ (bytes "/" ++ total_text r.total_length)))))
    ++ field (bytes "Content-Length") (decimal (n + 1))

abbrev pub is_one_of : Bytes → List Bytes → Bool
is_one_of key [] = false
is_one_of key (name ∷ names) = if eqb key name then true else is_one_of key names

-- The headers that were added, less those that the response writes from its own members.
abbrev pub added_fields : Dict Bytes → Bytes
added_fields [] = []
added_fields ((name, value) ∷ m) =
    if is_one_of name (bytes "Content-Length" ∷ (bytes "Content-Range" ∷ (bytes "Connection" ∷ [])))
    then added_fields m
    else field name value ++ added_fields m

abbrev pub connection_field : HttpResponse → Bytes
connection_field r =
    field (bytes "Connection") (if r.close_connection then bytes "close" else bytes "Keep-Alive")

-- The head of the message: the status line, the fields and an empty line.
abbrev pub message_head : Option (ℕ × ℕ) → HttpResponse → Bytes
message_head range r =
    let code = sent_code range r.status_code in
    let phrase = if is_empty r.status_message then phrase_in phrases code else r.status_message in
    (bytes "HTTP/1.1 " ++ (decimal code ++ (bytes " " ++ (phrase ++ bytes "\r\n"))))
    ++ (connection_field r ++ (size_fields range r ++ (added_fields r.headers ++ bytes "\r\n")))

other_lem : (m : Dict Bytes) → other_header_lines m ≡ added_fields m
unfolding eqb
other_lem [] = refl
other_lem ((k, v) ∷ m) = ground (arith, other_lem m)

length_lem : (n : ℤ) (r : HttpResponse) → r.content_length ≡ n → length_lines r ≡ length_field n r
unfolding decimal_ℤ
length_lem (pos zero) r e = ground (arith, e)
length_lem (pos (suc n)) r e = ground (arith, e)
length_lem (negsuc n) r e = ground (arith, e)

total_lem : (n : ℤ) → (if is_negative n then bytes "*" else decimal_ℤ n) ≡ total_text n
unfolding decimal_ℤ
total_lem (pos n) = refl
total_lem (negsuc n) = refl

span_lem : (a n : ℕ) → range_length (pos a) (pos (a + n)) ≡ pos (n + 1)
span_lem a n = ground arith

range_lem :
    (a n : ℕ) (r : HttpResponse)
    → r.range_start ≡ pos a
    → r.range_end ≡ pos (a + n)
    → range_lines r ≡ size_fields (some (a, n)) r
unfolding decimal_ℤ
range_lem a n r s e = ground (arith, s, e, total_lem r.total_length, span_lem a n)

ranged_lem :
    (range : Option (ℕ × ℕ)) (r : HttpResponse)
    → Describes r range
    → ranged r ≡ record r { status_code = sent_code range r.status_code }
ranged_lem none r d = ground (arith, d)
ranged_lem (some (a, n)) r (d, s, e) = ground (arith, d)

size_lem :
    (range : Option (ℕ × ℕ)) (r : HttpResponse)
    → Describes r range
    → (if r.has_range then range_lines r else length_lines r) ≡ size_fields range r
size_lem none r d = if_else _ _ d ∙ length_lem r.content_length r refl
size_lem (some (a, n)) r (d, s, e) = if_then _ _ d ∙ range_lem a n r s e

-- The head, with the status that is sent in place.
head_lem :
    (range : Option (ℕ × ℕ)) (r : HttpResponse)
    → Describes r range
    → head_text (ranged r) ≡ message_head range r
head_lem range r d =
    ap head_text (ranged_lem range r d)
    ∙ ap (λ size. with_fields size (other_header_lines r.headers)) (size_lem range r d)
    ∙ ap (with_fields (size_fields range r)) (other_lem r.headers)
  where
    code : ℕ
    code = sent_code range r.status_code

    with_fields : Bytes → Bytes → Bytes
    with_fields size added =
        (bytes "HTTP/1.1 "
          ++ (decimal code
              ++ (bytes " "
                  ++ ((if is_empty r.status_message
                        then phrase_in phrases code
                        else r.status_message)
                      ++ bytes "\r\n"))))
        ++ (connection_field r ++ (size ++ (added ++ bytes "\r\n")))

-- `AppendToBuffer` succeeds on a valid buffer that stays below 2^64 bytes, and adds to what the
-- buffer holds the message of the response: the status line with the status, which a range turns
-- from 200 into 206, and with the phrase of the response or the standard one; `Connection`; with a
-- range, `Content-Range` with its first and its last byte and the total, or a star for it, and as
-- `Content-Length` the number of bytes from the first to the last; without one, the length that was
-- set if it is above zero or, if it is zero and the connection is kept, that of a body that is not empty;
-- the other headers that were added; an empty line; the body. The response keeps the status that
-- was sent. A range begins at or above zero and does not end before it begins.
pub append_to_buffer_lem :
    (range : Option (ℕ × ℕ)) (r : HttpResponse) {out : Buffer}
    → Describes r range
    → IsValid out
    → length out.buf + (length (message_head range r) + length r.body) < 2 ^ 64
    → (c : Buffer) × (append_to_buffer r out
        ≡ some (record r { status_code = sent_code range r.status_code }, c))
      × IsValid c
      × (peek_all_as_string c ≡ peek_all_as_string out ++ (message_head range r ++ r.body))
unfolding append_to_buffer
append_to_buffer_lem range r {out} d v h =
    let headed = head_lem range r d in
    let (b, e, w, grows, same) = append_lem (message_head range r) v (omega arith) in
    let (c, e', w', same') = append_body_lem r.body w (omega arith) in
    (
      c,
      ap (λ s. with_body (append out s)) headed
          ∙ ap with_body e
          ∙ ap with_response e'
          ∙ ap (λ q. some (q, c)) (ranged_lem range r d),
      w',
      same' ∙ ap (λ s. s ++ r.body) same ∙ append_assoc (peek_all_as_string out) _ _,
    )
  where
    with_response : Option Buffer → Option (HttpResponse × Buffer)
    with_response o = o >>= λ full. some (ranged r, full)

    with_body : Option Buffer → Option (HttpResponse × Buffer)
    with_body o = o >>= λ headed.
        with_response (if is_empty r.body then some headed else append headed r.body)
