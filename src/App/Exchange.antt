-- ===== src/App/Exchange.antt =====
-- What a handler of the application is given: the request, the response, the connection as far as
-- handlers use it, and the objects that the handlers share. A handler gives all of it back with its
-- answer; `none` is an exception that leaves the handler, or undefined behaviour. Also
-- application/src/inc/HttpUtil.h.
use c_cloud_storage.Prelude.{
  ℕ, Bool, true, Option, none, some, length, ◌==◌, if◌then◌else◌, Bytes, bytes, is_empty,
}
use c_cloud_storage.Prelude.Number.{ℤ, pos}
use c_cloud_storage.Tcp.Buffer.{◌>>=◌}
use c_cloud_storage.Http.Request.{HttpRequest, get_header}
use c_cloud_storage.Http.Response.{HttpResponse, html_type, set_content_type, to_int}
use c_cloud_storage.Http.Response.Status
use c_cloud_storage.App.World.{World, Json, number, text, object, no_more, member}
use c_cloud_storage.App.Database.{Db}
use c_cloud_storage.App.Database.Sessions.{validate_session}
use c_cloud_storage.App.Upload.{FileUploadContext}
use c_cloud_storage.App.Download.{FileDownContext}
use c_cloud_storage.App.Filenames.{FilenameMap}

-- The object that `SetContext` keeps. `GetContext<T>` does not look which of the two it is.
pub data Attachment : Type 0 where
  uploading : FileUploadContext → Attachment
  downloading : FileDownContext → Attachment

-- The HTTP context of the connection: `GetCompleteRequest()`, and what it keeps.
pub record Link : Type 0 where
  pub completed : Bool
  pub attachment : Option Attachment

-- The callbacks that the handlers set. `send_next` reads on in the download that the connection
-- keeps: it holds the same object.
pub data WriteComplete : Type 0 where
  shut_down send_next : WriteComplete

pub record Exchange {ℓ} (W : Type ℓ) : Type ℓ where
  pub request : HttpRequest
  pub response : HttpResponse
  pub link : Option Link
  pub on_write_complete : Option WriteComplete
  pub db : Db W
  pub filenames : FilenameMap

-- The answer of a handler.
abbrev pub Answer {ℓ} : Type ℓ → Type ℓ
Answer W = Option (Bool × Exchange W)

abbrev pub reason_of : ℕ → Bytes
reason_of code =
    if code == 400
    then bytes "Bad Request"
    else if code == 401
    then bytes "Unauthorized"
    else if code == 403
    then bytes "Forbidden"
    else if code == 404
    then bytes "Not Found"
    else if code == 416
    then bytes "Range Not Satisfiable"
    else if code == 500
    then bytes "Internal Server Error"
    else bytes "Error"

abbrev pub error_body : ℕ → Bytes → Json
error_body code message =
    object
      (member (bytes "code") (number (pos code)) (member (bytes "message") (text message) no_more))

abbrev pub error_response : ℕ → Bytes → Bytes → HttpResponse → HttpResponse
error_response code message body r = record (set_content_type (bytes "application/json") r) {
  status_code = code;
  status_message = if is_empty message then reason_of code else message;
  body = body;
  body_type = some html_type;
  content_length = to_int (length body);
  close_connection = true;
}

abbrev pub json_response : ℕ → Bytes → HttpResponse → HttpResponse
json_response code body r = record (set_content_type (bytes "application/json") r) {
  status_code = code;
  status_message = if code == Status.ok then bytes "OK" else bytes "Internal Server Error";
  body = body;
  body_type = some html_type;
  content_length = to_int (length body);
}

module _ {ℓ} {W : Type ℓ} (world : World W) where
  unfoldable pub send_error : Bytes → ℕ → Exchange W → Option (Exchange W)
  unfolding set_content_type
  send_error message code x = do
    body ← world.dump (error_body code message)
    some (record x {
      response = error_response code message body x.response;
      on_write_complete = some shut_down;
    })

  unfoldable pub send_json : Json → ℕ → Exchange W → Option (Exchange W)
  unfolding set_content_type
  send_json out code x = do
    body ← world.dump out
    some (record x {
      response = json_response code body x.response;
      on_write_complete = some shut_down;
    })

  -- `sendError(...); return true;`
  abbrev pub refuse : Bytes → ℕ → Exchange W → Answer W
  refuse message code x = do y ← send_error message code x; some (true, y)

  -- `sendJson(...); return true;`
  abbrev pub reply : Json → Exchange W → Answer W
  reply out x = do y ← send_json out Status.ok x; some (true, y)

  -- The check at the top of the handlers that need a session, and what follows it for the user.
  unfoldable pub with_session : (ℤ → Exchange W → Answer W) → Exchange W → Answer W
  unfolding validate_session get_header send_error
  with_session f x =
      elim (validate_session world (get_header (bytes "X-Session-ID") x.request) x.db) [
        | none ↦ none
        | some none ↦ refuse (bytes "未登录或会话已过期") 401 x
        | some (some user) ↦ f user.0 x
      ]
