-- ===== src/Http/Server/Tests.antt =====
-- The theorems on the server, at concrete inputs.
use c_cloud_storage.Prelude.{
  ◌≡◌, ◌≢◌, refl, sym, ap, find_byte, starts_with, eqb, true, false, Option, some, none, [], ◌∷◌,
  ◌++◌, Bytes, bytes, arith,
}
use c_cloud_storage.Prelude.Number.{ℤ}
use c_cloud_storage.Tcp.Buffer
use c_cloud_storage.Tcp.Buffer.{Buffer, readable_bytes}
use c_cloud_storage.Tcp.Buffer.Bounds.{IsValid}
use c_cloud_storage.Tcp.Connection
use c_cloud_storage.Tcp.Connection.{Connection, connected, closed, is_closed, shutdown}
use c_cloud_storage.Tcp.Connection.Closing.{here, next, shuts_down}
use c_cloud_storage.Http.Context
use c_cloud_storage.Prelude.Dict.{lookup}
use c_cloud_storage.Http.Context.{Parsed, complete}
use c_cloud_storage.Http.Context.Headers.{
  parse_lines, next_line, whole_line, request_line, end_headers, body_mode,
}
use c_cloud_storage.Http.Context.Incremental.{parse_incremental, parse_body}
use c_cloud_storage.Http.Request
use c_cloud_storage.Http.Request.{
  HttpRequest, get, http11, set_method, set_url, set_version, get_header,
}
use c_cloud_storage.Http.Response.{HttpResponse, HttpBodyType, set_content_type, add_header}
use c_cloud_storage.Http.Server.Frame.{IsQuiet}
use c_cloud_storage.Http.Server.{
  HttpServer, Handled, HttpResponseCallback, http_default_callback, create_server,
  send_deferred_response, active_close_conn,
}
use c_cloud_storage.Http.Server.Message.{finished, out_of_fuel, unending, is_requested, on_message}
use c_cloud_storage.Http.Server.Progress.{AnswersTexts, on_message_total}
use c_cloud_storage.Http.Server.Deferred.{IsWhole, on_message_deferred}
use c_cloud_storage.Http.Server.Idle.{active_close_conn-Reach}

abbrev headroom : Bytes
headroom = 0 ∷ 0 ∷ 0 ∷ 0 ∷ 0 ∷ 0 ∷ 0 ∷ 0 ∷ 0 ∷ 0 ∷ 0 ∷ 0 ∷ 0 ∷ 0 ∷ 0 ∷ 0 ∷ []

-- A connection with a whole request in its read buffer.
abbrev asked : Connection
asked = record (Connection.create 5 1 0) {
  state = connected;
  context = some Context.create;
  read_buffer = record {
    buf = headroom ++ bytes "GET / HTTP/1.1\r\n\r\n";
    read_index = 16;
    write_index = 34;
  };
}

asked-IsValid : IsValid asked.read_buffer
asked-IsValid = record {
  headroom = omega arith;
  ordered = omega arith;
  fits = omega arith;
  small = omega arith;
}

abbrev no_files : ℤ → Bytes
no_files _ = []

abbrev conn_or : Connection → Option Handled → Connection
conn_or c none = c
conn_or c (some h) = h.conn

default-IsQuiet : IsQuiet http_default_callback
default-IsQuiet c r h e =
    (ap (λ o. (conn_or c o).read_buffer) (sym e), ap (λ o. is_requested (conn_or c o)) (sym e))

abbrev body_type_or : HttpResponse → Option Handled → Option HttpBodyType
body_type_or r none = r.body_type
body_type_or r (some h) = h.response.body_type

default-AnswersTexts : AnswersTexts http_default_callback
unfolding set_content_type add_header
default-AnswersTexts c r h e = ap (body_type_or r) (sym e)

on_message_total_example :
    (on_message (create_server true) no_files asked ≢ out_of_fuel)
    × (on_message (create_server true) no_files asked ≢ unending)
on_message_total_example =
    on_message_total (create_server true) no_files asked default-IsQuiet default-AnswersTexts
      asked-IsValid

abbrev answer_later : HttpResponseCallback
answer_later c r = some (record { conn = c; response = r; done = false })

abbrev later_server : HttpServer
later_server = record (create_server true) { response_callback = answer_later }

abbrev parsed : Parsed
parsed = record {
  ctx = record Context.create {
    request = record Request.create { method = get; url = bytes "/"; version = http11 };
    state = complete;
    headers_complete = true;
    body_complete = true;
    header_bytes = 18;
  };
  consumed = 18;
  ok = true;
}

asked-IsWhole : IsWhole Context.create asked parsed
unfolding Buffer.peek_all_as_string Buffer.slice parse_incremental parse_body parse_lines next_line
    whole_line request_line find_byte set_method set_url set_version starts_with end_headers
    body_mode lookup get_header eqb
asked-IsWhole = record {
  parsed = refl;
  accepted = refl;
  requested = refl;
  body_complete = refl;
  all_taken = refl;
}

on_message_deferred_example :
    (d : Connection) × (on_message later_server no_files asked ≡ finished d)
    × (d.stream ≡ [])
    × (d.send_buffer ≡ asked.send_buffer)
    × (send_deferred_response no_files d ≡ some d)
on_message_deferred_example =
    on_message_deferred later_server no_files Context.create asked parsed (λ c r. (r, refl)) refl
      refl refl asked-IsValid asked-IsWhole

active_close_conn-Reach_example :
    (is_closed (active_close_conn 100 (record asked { shut_wr = true })).0.state ≡ true)
    × ((active_close_conn 100 (record asked { shut_wr = true })).1 ≡ none)
unfolding shutdown Buffer.create
active_close_conn-Reach_example =
    active_close_conn-Reach 100 asked (record asked { shut_wr = true })
      (next here (shuts_down refl)) (omega arith)
