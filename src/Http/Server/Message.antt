-- ===== src/Http/Server/Message.antt =====
-- http/HttpServer.cpp: `onMessage`.
use c_cloud_storage.Prelude.{
  ℕ, zero, suc, ◌+◌, ◌*◌, Bool, true, false, not, ◌&&◌, ◌||◌, Option, none, some, length, leb, ◌==◌,
  if◌then◌else◌, Bytes, bytes, eqb,
}
use c_cloud_storage.Prelude.Number.{ℤ}
use c_cloud_storage.Tcp.Buffer.{Buffer, ◌>>=◌, retrieve, readable_bytes, peek_all_as_string}
use c_cloud_storage.Tcp.Connection.{Connection, is_connected, send, handle_close}
use c_cloud_storage.Http.Request.{HttpRequest, HttpMethod, post}
use c_cloud_storage.Http.Response
use c_cloud_storage.Http.Response.{HttpBodyType, html_type}
use c_cloud_storage.Http.Request
use c_cloud_storage.Http.Context
use c_cloud_storage.Http.Context.{HttpContext, Parsed, reset_context_status, get_complete_request}
use c_cloud_storage.Http.Context.Incremental.{parse_incremental}
use c_cloud_storage.Http.Server.{HttpServer, Handled, on_request, with_context, wants_close}

-- Where the loop stands after a part of it: it is left, or it goes on.
pub data Stage : Type 0 where
  stopped goes_on : Connection → Stage

-- The end of `onMessage`. `aborted`: an assertion that fails, or an exception. `unending`: an answer
-- that is not a text does not go through; it is the loop of `SendFile`, which may have no end.
pub data Outcome : Type 0 where
  finished : Connection → Outcome
  aborted unending out_of_fuel : Outcome

abbrev pub bad_request_text : Bytes
bad_request_text = bytes "HTTP/1.1 400 Bad Request\r\nConnection: close\r\n\r\n"

abbrev is_post : HttpMethod → Bool
is_post post = true
is_post _ = false

-- An upload of which enough has come to give it to the callback.
unfoldable pub is_upload_part : HttpContext → Bool
is_upload_part ctx =
    (ctx.headers_complete && not ctx.body_complete)
    && ((is_post ctx.request.method && eqb ctx.request.url (bytes "/upload"))
        && leb (1 * 1024 * 1024) (length ctx.request.body))

abbrev pub offered : Handled → Stage
offered h = if h.done then goes_on h.conn else stopped h.conn

abbrev pub offer_part : HttpServer → Bool → Connection → Option Stage
offer_part s part c =
    if part
    then (do h ← s.response_callback c (Response.create false); some (offered h))
    else some (goes_on c)

-- The connection with the context that the parser left and what is left of its buffer.
abbrev pub parsed_conn : HttpContext → Buffer → Connection → Connection
parsed_conn ctx b c = record c { read_buffer = b; context = some ctx }

abbrev pub take_consumed : ℕ → Buffer → Option Buffer
take_consumed n b = if n == 0 then some b else retrieve b n

-- After `ParseIncremental`.
abbrev pub accept : HttpServer → Parsed → Connection → Option Stage
accept s p c =
    if p.ok
    then (do
      b ← take_consumed p.consumed c.read_buffer
      offer_part s (is_upload_part p.ctx) (parsed_conn p.ctx b c))
    else (do
      d ← send bad_request_text (parsed_conn p.ctx c.read_buffer c)
      some (stopped (handle_close d)))

unfoldable pub parse_more : HttpServer → HttpContext → Connection → Option Stage
unfolding parse_incremental peek_all_as_string retrieve is_upload_part send handle_close
parse_more s ctx c =
    if not ctx.headers_complete || not ctx.body_complete
    then (do p ← parse_incremental ctx (peek_all_as_string c.read_buffer); accept s p c)
    else some (goes_on c)

abbrev pub is_requested : Connection → Bool
is_requested c = elim c.context [ none ↦ false | some ctx ↦ get_complete_request ctx ]

-- The request of the connection.
abbrev pub request_of : Connection → HttpRequest
request_of c = elim c.context [ none ↦ Request.create | some ctx ↦ ctx.request ]

-- After a request: the connection may be closed, the buffer may be empty, or there is more.
abbrev pub next_request : (Connection → Outcome) → Connection → Outcome
next_request again d =
    let e = with_context reset_context_status d in
    if is_connected d.state
    then (if readable_bytes d.read_buffer == 0 then finished e else again e)
    else finished d

abbrev pub is_text : Option HttpBodyType → Bool
is_text (some html_type) = true
is_text _ = false

-- Whether the answer to a request is sent at once, and is not a text.
abbrev pub answers_file : HttpServer → HttpRequest → Connection → Bool
answers_file s request c = elim (s.response_callback c (Response.create (wants_close request))) [
  | none ↦ false
  | some h ↦ h.done && not (is_text h.response.body_type)
]

abbrev pub after_request : Bool → (Connection → Outcome) → Option Connection → Outcome
after_request file again none = if file then unending else aborted
after_request file again (some d) = next_request again d

abbrev pub serve : HttpServer → (ℤ → Bytes) → (Connection → Outcome) → Connection → Outcome
serve s files again c =
    if is_requested c
    then (after_request (answers_file s (request_of c) c) again
        (on_request s files (request_of c) c))
    else finished c

abbrev pub after_stage : HttpServer → (ℤ → Bytes) → (Connection → Outcome) → Option Stage → Outcome
after_stage s files again none = aborted
after_stage s files again (some (stopped d)) = finished d
after_stage s files again (some (goes_on d)) = serve s files again d

-- The connection with its context, a new one if there is none.
abbrev pub context_of : Connection → HttpContext
context_of c = elim c.context [ none ↦ Context.create | some ctx ↦ ctx ]

unfoldable pub message_loop : ℕ → HttpServer → (ℤ → Bytes) → Connection → Outcome
unfolding parse_more on_request wants_close reset_context_status
message_loop zero s files c = out_of_fuel
message_loop (suc fuel) s files c =
    after_stage s files (message_loop fuel s files) (parse_more s (context_of c) c)

-- Each request but the first takes at least a byte of the buffer.
unfoldable pub on_message : HttpServer → (ℤ → Bytes) → Connection → Outcome
unfolding message_loop
on_message s files c =
    if is_connected c.state
    then message_loop (readable_bytes c.read_buffer + 2) s files
        (record c { context = some (context_of c) })
    else finished c
