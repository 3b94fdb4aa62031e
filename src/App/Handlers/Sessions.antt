-- ===== src/App/Handlers/Sessions.antt =====
-- The handlers of application/src that need a session, without one, and what becomes of the false
-- that `handleUpload` returns.
use c_cloud_storage.Prelude.{◌≡◌, ap, ◌∙◌, false, none, some, ◌++◌, Bytes, bytes, arith, find_text}
use c_cloud_storage.Prelude.Number.{ℤ}
use c_cloud_storage.Http.Request.{HttpRequest, get_header}
use c_cloud_storage.App.World.{World}
use c_cloud_storage.App.Database.Sessions.{validate_session}
use c_cloud_storage.App.Filenames
use c_cloud_storage.App.Routes.{Regex, dispatch}
use c_cloud_storage.App.Exchange.{Exchange, Answer, Link, uploading, with_session, refuse}
use c_cloud_storage.App.Handlers.List.{handle_list_files, list_files}
use c_cloud_storage.App.Handlers.Delete.{handle_delete, delete_file}
use c_cloud_storage.App.Handlers.Upload.{
  handle_upload, upload, after_piece, next_piece, with_upload, end_of_parts,
}
use c_cloud_storage.App.Handlers.Upload.Pieces.{Received, between_piece}
use c_cloud_storage.App.Upload.{FileUploadContext, expect_boundary}
use c_cloud_storage.App.Handlers.Share.{handle_share_file, share_file}
use c_cloud_storage.App.Handlers.Users.{handle_search_users, search_users}
use c_cloud_storage.App.Handlers.Table.{
  Setup, register_routes, http_callback, or_not_found, handled, with_request,
}

with_session-none {ℓ} :
    {W : Type ℓ} (world : World W) (f : ℤ → Exchange W → Answer W) (x : Exchange W)
    → validate_session world (get_header (bytes "X-Session-ID") x.request) x.db ≡ some none
    → with_session world f x ≡ refuse world (bytes "未登录或会话已过期") 401 x
unfolding with_session
with_session-none world f x e =
    ap
      (λ o. elim o [
        | none ↦ none
        | some none ↦ refuse world (bytes "未登录或会话已过期") 401 x
        | some (some user) ↦ f user.0 x
      ])
      e

-- Without a valid session, the listing, the deletion, the upload, the making of a share and the
-- search for users answer with the same error 401, and do nothing else.
handle_upload-validate_session {ℓ} :
    {W : Type ℓ} (world : World W) (maps : Filenames.Json) (upload_dir : Bytes) (x : Exchange W)
    → validate_session world (get_header (bytes "X-Session-ID") x.request) x.db ≡ some none
    → (handle_list_files world x ≡ refuse world (bytes "未登录或会话已过期") 401 x)
      × (handle_delete world maps upload_dir x ≡ refuse world (bytes "未登录或会话已过期") 401 x)
      × (handle_upload world upload_dir x ≡ refuse world (bytes "未登录或会话已过期") 401 x)
      × (handle_share_file world x ≡ refuse world (bytes "未登录或会话已过期") 401 x)
      × (handle_search_users world x ≡ refuse world (bytes "未登录或会话已过期") 401 x)
unfolding handle_list_files handle_delete handle_upload handle_share_file handle_search_users
handle_upload-validate_session world maps upload_dir x e = (
  with_session-none world (list_files world) x e,
  with_session-none world (delete_file world maps upload_dir) x e,
  with_session-none world (upload world upload_dir) x e,
  with_session-none world (share_file world) x e,
  with_session-none world (search_users world) x e,
)

-- `handleUpload` returns false for a piece that is not the last.
upload_between {ℓ} :
    {W : Type ℓ} (world : World W) (upload_dir : Bytes) (x : Exchange W) (user : ℤ × Bytes)
    (link : Link) (c : FileUploadContext)
    → validate_session world (get_header (bytes "X-Session-ID") x.request) x.db ≡ some (some user)
    → x.link ≡ some link
    → link.attachment ≡ some (uploading c)
    → link.completed ≡ false
    → (next_piece x.request.body c).state ≡ expect_boundary
    → handle_upload world upload_dir x
      ≡ some (false, with_upload world link (next_piece x.request.body c) x)
unfolding handle_upload with_session upload after_piece
upload_between world upload_dir x user link c session has keeps going state =
    ap
      (λ o. elim o [
        | none ↦ none
        | some none ↦ refuse world (bytes "未登录或会话已过期") 401 x
        | some (some u) ↦ upload world upload_dir u.0 x
      ])
      session
    ∙ ground (arith, has, keeps, going, state)

-- In the middle of an upload, for a request that the routes give to `handleUpload`, with a session, on
-- a connection that keeps an upload whose file is open and which waits for a boundary, and with a
-- body that has no boundary in it: the body is added to the file and the upload waits on, but
-- `HttpCallback` sets the error 404 in the response and returns true, as for a path that has no
-- route.
pub http_callback-between_piece {ℓ} :
    {W : Type ℓ} (world : World W) (s : Setup) (regex : Regex) (x : Exchange W) (req : HttpRequest)
    (user : ℤ × Bytes) (link : Link) (c : FileUploadContext) (written : Bytes)
    → dispatch regex (register_routes world s) x.request
      ≡ some (handle_upload world s.upload_dir, req)
    → validate_session world (get_header (bytes "X-Session-ID") req) x.db ≡ some (some user)
    → x.link ≡ some link
    → link.attachment ≡ some (uploading c)
    → link.completed ≡ false
    → c.file ≡ some written
    → c.state ≡ expect_boundary
    → find_text c.boundary req.body ≡ none
    → find_text (end_of_parts c.boundary) req.body ≡ none
    → (d : FileUploadContext) × Received expect_boundary (written ++ req.body) c d
      × (http_callback world s regex x
          ≡ refuse world
              (bytes "Not Found")
              404
              (with_upload world link d (with_request world s x req)))
unfolding http_callback
http_callback-between_piece world s regex x req user link c written route session has keeps going
      file state no_boundary no_end =
    let received = between_piece req.body c written file state no_boundary no_end in
    (
      next_piece req.body c,
      received,
      ap
            (λ o. elim o [
              | none ↦ or_not_found world s (false, x)
              | some r ↦ handled world s (r.0 (with_request world s x r.1))
            ])
            route
          ∙ ap (handled world s) (
              upload_between world s.upload_dir (with_request world s x req) user link c session has
                keeps going received.1),
    )
