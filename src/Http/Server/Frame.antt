-- ===== src/Http/Server/Frame.antt =====
-- What a request leaves alone: the read buffer.
use c_cloud_storage.Prelude.{
  ◌≡◌, refl, ◌∙◌, Bool, true, false, Option, none, some, if◌then◌else◌, Bytes,
}
use c_cloud_storage.Prelude.Number.{ℤ}
use c_cloud_storage.Tcp.Buffer.{◌>>=◌}
use c_cloud_storage.Tcp.Connection.{Connection, is_closed, send, handle_close}
use c_cloud_storage.Tcp.Connection.Frame.{
  Framed, OnSome, OnSome-if, send-Framed, send_file-Framed, send_file_range-Framed,
}
use c_cloud_storage.Http.Request.{HttpRequest}
use c_cloud_storage.Http.Response.{
  HttpResponse, HttpBodyType, html_type, file_type, get_before_body, get_message, create,
}
use c_cloud_storage.Http.Context.{HttpContext}
use c_cloud_storage.Http.Server.{
  HttpServer, HttpResponseCallback, Handled, on_request, with_context, send_response, send_typed,
  send_body, close_if, respond, wants_close,
}
use c_cloud_storage.Http.Server.Message.{is_requested}

-- The callback leaves the read buffer alone, and does not make a request complete or incomplete.
abbrev pub IsQuiet : HttpResponseCallback → Type 0
IsQuiet cb =
    (c : Connection) (r : HttpResponse) (h : Handled)
    → cb c r ≡ some h
    → (h.conn.read_buffer ≡ c.read_buffer) × (is_requested h.conn ≡ is_requested c)

abbrev pub Keeps : Connection → Connection → Type 0
Keeps c d = d.read_buffer ≡ c.read_buffer

Framed-Keeps : (c : Connection) (o : Option Connection) → OnSome (Framed c) o → OnSome (Keeps c) o
Framed-Keeps c none h = tt
Framed-Keeps c (some d) h = h.0

then-Keeps :
    (c : Connection) (o : Option Connection) (f : Connection → Option Connection)
    → OnSome (Keeps c) o
    → ((d : Connection) → OnSome (Keeps d) (f d))
    → OnSome (Keeps c) (o >>= f)
then-Keeps c none f h k = tt
then-Keeps c (some d) f h k = through (f d) (k d)
  where
    through : (o : Option Connection) → OnSome (Keeps d) o → OnSome (Keeps c) o
    through none g = tt
    through (some e) g = g ∙ h

if-Keeps :
    (c : Connection) (b : Bool) (d e : Connection)
    → Keeps c d
    → Keeps c e
    → Keeps c (if b then d else e)
if-Keeps c true d e h k = h
if-Keeps c false d e h k = k

close_if-Keeps : (b : Bool) (c : Connection) → Keeps c (close_if b c)
unfolding handle_close
close_if-Keeps b c =
    if-Keeps c b (handle_close c) c (if-Keeps c (is_closed c.state) c _ refl refl) refl

send_body-Keeps :
    (files : ℤ → Bytes) (r : HttpResponse) (c : Connection) → OnSome (Keeps c) (send_body files r c)
send_body-Keeps files r c =
    OnSome-if (Keeps c) r.has_range _ _ (Framed-Keeps c _ (send_file_range-Framed _ _ _ c))
      (Framed-Keeps c _ (send_file-Framed _ _ c))

send_typed-Keeps :
    (files : ℤ → Bytes) (r : HttpResponse) (t : Option HttpBodyType) (c : Connection)
    → OnSome (Keeps c) (send_typed files r t c)
send_typed-Keeps files r none c = tt
send_typed-Keeps files r (some html_type) c = Framed-Keeps c _ (send-Framed (get_message r) c)
send_typed-Keeps files r (some file_type) c =
    then-Keeps c (send (get_before_body r) c) (send_body files r)
      (Framed-Keeps c _ (send-Framed (get_before_body r) c)) (send_body-Keeps files r)

send_response-Keeps :
    (files : ℤ → Bytes) (r : HttpResponse) (c : Connection)
    → OnSome (Keeps c) (send_response files r c)
unfolding send_response
send_response-Keeps files r c = send_typed-Keeps files r r.body_type c

pub with_context-Keeps :
    (f : HttpContext → HttpContext) (c : Connection) → Keeps c (with_context f c)
with_context-Keeps f c = at c.context
  where
    at :
        (o : Option HttpContext)
        → Keeps c (elim o [ none ↦ c | some ctx ↦ record c { context = some (f ctx) } ])
    at none = refl
    at (some ctx) = refl

respond-Keeps : (files : ℤ → Bytes) (h : Handled) → OnSome (Keeps h.conn) (respond files h)
respond-Keeps files h =
    OnSome-if (Keeps h.conn) h.done _ _
      (then-Keeps h.conn (send_response files h.response h.conn)
        (λ d. some (close_if h.response.close_connection d))
        (send_response-Keeps files h.response h.conn) (close_if-Keeps h.response.close_connection))
      (with_context-Keeps _ h.conn)

pub on_request-Keeps :
    (s : HttpServer) (files : ℤ → Bytes) (request : HttpRequest) (c : Connection)
    → IsQuiet s.response_callback
    → OnSome (Keeps c) (on_request s files request c)
unfolding on_request
on_request-Keeps s files request c quiet =
    at (s.response_callback c (create (wants_close request))) refl
  where
    at :
        (o : Option Handled)
        → s.response_callback c (create (wants_close request)) ≡ o
        → OnSome (Keeps c) (o >>= respond files)
    at none e = tt
    at (some h) e = through (respond files h) (respond-Keeps files h)
      where
        through : (o : Option Connection) → OnSome (Keeps h.conn) o → OnSome (Keeps c) o
        through none g = tt
        through (some d) g = g ∙ (quiet c (create (wants_close request)) h e).0
