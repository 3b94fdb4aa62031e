-- ===== src/Http/Server.antt =====
-- http/HttpServer.cpp, inc/HttpServer.h. A business callback is a function of the server: it is
-- given the connection, with its request in its context, and the response, and gives them back with
-- its answer; it does not put another context in the place of the connection's. `files` says what
-- the file behind a descriptor holds; closing the descriptor is left out. `none` is an assertion
-- that fails, or a response whose body type was never set.
pub mod Message
pub mod Frame
pub mod Progress
pub mod Deferred
pub mod Idle
mod Tests
use c_cloud_storage.Prelude.{
  ℕ, zero, suc, ◌+◌, ◌*◌, Bool, true, false, not, ◌&&◌, ◌||◌, Option, none, some, [], ◌∷◌, length,
  ltb, leb, ◌==◌, if◌then◌else◌, Bytes, bytes, eqb,
}
use c_cloud_storage.Prelude.Dict.{Dict, insert}
use c_cloud_storage.Prelude.Number.{ℤ, pos, to_size}
use c_cloud_storage.Tcp.Buffer.{◌>>=◌, retrieve, readable_bytes, peek_all_as_string}
use c_cloud_storage.Tcp.Connection.{Connection, is_connected, send, handle_close}
use c_cloud_storage.Tcp.Connection.Files.{send_file, send_file_range}
use c_cloud_storage.Http.Request.{HttpRequest, HttpMethod, post, HttpVersion, http10, get_header}
use c_cloud_storage.Http.Response.{
  HttpResponse, HttpBodyType, html_type, file_type, create, get_before_body, get_message,
  range_length, set_content_type,
}
use c_cloud_storage.Http.Context
use c_cloud_storage.Http.Context.{
  HttpContext, Parsed, reset_context_status, get_complete_request, store_deferred_response,
  clear_deferred_response,
}
use c_cloud_storage.Http.Context.Incremental.{parse_incremental}
use c_cloud_storage.Router.Trie
use c_cloud_storage.Router.Trie.{TrieNode}

-- What a callback leaves; `done` is false when the response comes later.
pub record Handled : Type 0 where
  pub conn : Connection
  pub response : HttpResponse
  pub done : Bool

abbrev pub HttpResponseCallback : Type 0
HttpResponseCallback = Connection → HttpResponse → Option Handled

abbrev pub not_found : HttpResponse → HttpResponse
not_found r = set_content_type (bytes "text/plain; charset=utf-8") (record r {
  status_code = 404;
  status_message = bytes "Not Found";
  close_connection = true;
  body_type = some html_type;
  body = bytes "404 Not Found\n";
  content_length = pos 13;
})

abbrev pub http_default_callback : HttpResponseCallback
http_default_callback c r = some (record { conn = c; response = not_found r; done = true })

pub record HttpServer : Type 0 where
  pub response_callback : HttpResponseCallback
  pub on_connection_callback : Option (Connection → Connection)
  pub auto_close_conn : Bool
  pub router : TrieNode
  pub route_handlers : Dict HttpResponseCallback

-- A new server.
abbrev pub create_server : Bool → HttpServer
create_server auto = record {
  response_callback = http_default_callback;
  on_connection_callback = none;
  auto_close_conn = auto;
  router = Trie.create;
  route_handlers = [];
}

abbrev pub set_http_callback : HttpResponseCallback → HttpServer → HttpServer
set_http_callback cb s = record s { response_callback = cb }

abbrev pub set_on_connection_callback : (Connection → Connection) → HttpServer → HttpServer
set_on_connection_callback cb s = record s { on_connection_callback = some cb }

unfoldable pub add_route : Bytes → Bytes → Bytes → HttpServer → HttpServer
unfolding Trie.add_route
add_route path method name s = record s { router = Trie.add_route path method name s.router }

unfoldable pub register_handler : Bytes → HttpResponseCallback → HttpServer → HttpServer
register_handler name cb s = record s { route_handlers = insert name cb s.route_handlers }

-- Seconds.
abbrev pub auto_close_timeout : ℕ
auto_close_timeout = 100

-- The connection after the user's callback, and after how many seconds `ActiveCloseConn` is called.
unfoldable pub on_connection : HttpServer → Connection → Connection × Option ℕ
on_connection s c = (
  elim s.on_connection_callback [ none ↦ c | some cb ↦ cb c ],
  if s.auto_close_conn then some auto_close_timeout else none,
)

-- The connection at the time `now`, and after how many seconds the call is repeated.
unfoldable pub active_close_conn : ℕ → Connection → Connection × Option ℕ
unfolding handle_close
active_close_conn now c =
    if ltb c.last_active_time now then (handle_close c, none) else (c, some auto_close_timeout)

-- A change of the context that the connection has.
abbrev pub with_context : (HttpContext → HttpContext) → Connection → Connection
with_context f c = elim c.context [ none ↦ c | some ctx ↦ record c { context = some (f ctx) } ]

-- A response by the type of its body: a text, or its head and then a file or a part of it.
abbrev pub send_body : (ℤ → Bytes) → HttpResponse → Connection → Option Connection
send_body files r c =
    if r.has_range
    then (send_file_range (files r.filefd) (to_size r.range_start)
        (to_size (range_length r.range_start r.range_end)) c)
    else send_file (files r.filefd) r.content_length c

abbrev pub send_typed :
    (ℤ → Bytes) → HttpResponse → Option HttpBodyType → Connection → Option Connection
send_typed files r none c = none
send_typed files r (some html_type) c = send (get_message r) c
send_typed files r (some file_type) c = do d ← send (get_before_body r) c; send_body files r d

unfoldable pub send_response : (ℤ → Bytes) → HttpResponse → Connection → Option Connection
unfolding get_message get_before_body send send_file send_file_range
send_response files r c = send_typed files r r.body_type c

abbrev pub is_http10 : HttpVersion → Bool
is_http10 http10 = true
is_http10 _ = false

-- Whether the request asks to close the connection.
unfoldable pub wants_close : HttpRequest → Bool
unfolding get_header
wants_close request =
    let connection_state = get_header (bytes "Connection") request in
    eqb connection_state (bytes "close")
    || (is_http10 request.version && not (eqb connection_state (bytes "keep-alive")))

abbrev pub close_if : Bool → Connection → Connection
close_if b c = if b then handle_close c else c

-- The response after the callback: it is kept, or it is sent.
abbrev pub respond : (ℤ → Bytes) → Handled → Option Connection
respond files h =
    if h.done
    then (do
      d ← send_response files h.response h.conn
      some (close_if h.response.close_connection d))
    else some (with_context (store_deferred_response h.response) h.conn)

unfoldable pub on_request : HttpServer → (ℤ → Bytes) → HttpRequest → Connection → Option Connection
unfolding send_response wants_close handle_close
on_request s files request c = do
  h ← s.response_callback c (create (wants_close request))
  respond files h

-- `SendDeferredResponse`, with the response that the context keeps.
abbrev pub send_kept : (ℤ → Bytes) → Option HttpResponse → Connection → Option Connection
send_kept files none c = some c
send_kept files (some r) c = do
  d ← send_response files r c
  some (close_if r.close_connection (with_context clear_deferred_response d))

abbrev pub deferred : Connection → Option HttpResponse
deferred c = elim c.context [ none ↦ none | some ctx ↦ ctx.deferred_response ]

unfoldable pub send_deferred_response : (ℤ → Bytes) → Connection → Option Connection
unfolding send_response handle_close
send_deferred_response files c =
    if is_connected c.state then send_kept files (deferred c) c else some c
