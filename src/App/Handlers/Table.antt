-- ===== src/App/Handlers/Table.antt =====
-- application/src/Router.cpp, the routes and their handlers, and `HttpCallback` of
-- application/http_upload.cpp. The exception of a handler is `none`: what `HttpCallback` answers then is
-- left out, since it depends on what the handler had done before.
use c_cloud_storage.Prelude.{Bool, true, false, none, some, [], ◌∷◌, Bytes, bytes}
use c_cloud_storage.Http.Request.{HttpRequest, get, post, head, delete}
use c_cloud_storage.App.World.{World}
use c_cloud_storage.App.Filenames
use c_cloud_storage.App.Exchange.{Exchange, Answer, refuse, send_error}
use c_cloud_storage.App.Routes.{Router, Regex, add_route_exact, add_route_regex, dispatch}
use c_cloud_storage.App.Handlers.Static.{handle_index, handle_favicon, handle_static_asset}
use c_cloud_storage.App.Handlers.Login.{handle_register, handle_login, handle_logout}
use c_cloud_storage.App.Handlers.Share.{handle_share_file, handle_share_info}
use c_cloud_storage.App.Handlers.ShareAccess.{handle_share_access, handle_share_download}
use c_cloud_storage.App.Handlers.List.{handle_list_files}
use c_cloud_storage.App.Handlers.Access.{handle_download}
use c_cloud_storage.App.Handlers.Delete.{handle_delete}
use c_cloud_storage.App.Handlers.Upload.{handle_upload}
use c_cloud_storage.App.Handlers.Users.{handle_search_users}

-- What the handlers are made with: the path of StaticHandler.cpp, the folder of the uploads, the
-- library that reads the file names, the text of an exception.
pub record Setup : Type 0 where
  pub macro : Bytes
  pub upload_dir : Bytes
  pub maps : Filenames.Json
  pub what : Bytes

module _ {ℓ} {W : Type ℓ} (world : World W) (s : Setup) where
  unfoldable pub public_routes : Router (Exchange W → Answer W) → Router (Exchange W → Answer W)
  unfolding add_route_exact add_route_regex
  public_routes r0 =
      let r1 = add_route_exact (bytes "/favicon.ico") get (handle_favicon world s.macro) r0 in
      let r2 = add_route_exact (bytes "/register") post (handle_register world s.what) r1 in
      let r3 = add_route_exact (bytes "/login") post (handle_login world s.what) r2 in
      let r4 = add_route_exact (bytes "/") get (handle_index world s.macro) r3 in
      let r5 = add_route_exact (bytes "/index.html") get (handle_index world s.macro) r4 in
      let r6 = add_route_exact (bytes "/share.html") get (handle_index world s.macro) r5 in
      let r7 =
        add_route_regex (bytes "/static/(.*)") get (handle_static_asset world s.macro)
          (bytes "path" ∷ []) r6 in
      let r8 = add_route_exact (bytes "/register.html") get (handle_index world s.macro) r7 in
      let r9 =
        add_route_regex (bytes "/share/([^/]+)") get (handle_share_access world s.macro)
          (bytes "code" ∷ []) r8 in
      let r10 =
        add_route_regex (bytes "/share/download/([^/]+)") get
          (handle_share_download world s.upload_dir) (bytes "filename" ∷ []) r9 in
      add_route_regex (bytes "/share/info/([^/]+)") get (handle_share_info world)
        (bytes "code" ∷ []) r10

  unfoldable pub session_routes : Router (Exchange W → Answer W) → Router (Exchange W → Answer W)
  unfolding add_route_exact add_route_regex
  session_routes r0 =
      let r1 = add_route_exact (bytes "/upload") post (handle_upload world s.upload_dir) r0 in
      let r2 = add_route_exact (bytes "/files") get (handle_list_files world) r1 in
      let r3 =
        add_route_regex (bytes "/download/([^/]+)") head (handle_download world s.upload_dir)
          (bytes "filename" ∷ []) r2 in
      let r4 =
        add_route_regex (bytes "/download/([^/]+)") get (handle_download world s.upload_dir)
          (bytes "filename" ∷ []) r3 in
      let r5 =
        add_route_regex (bytes "/delete/([^/]+)") delete (handle_delete world s.maps s.upload_dir)
          (bytes "filename" ∷ []) r4 in
      let r6 = add_route_exact (bytes "/share") post (handle_share_file world) r5 in
      let r7 = add_route_exact (bytes "/users/search") get (handle_search_users world) r6 in
      add_route_exact (bytes "/logout") post (handle_logout world) r7

  unfoldable pub register_routes : Router (Exchange W → Answer W)
  unfolding public_routes session_routes
  register_routes = session_routes (public_routes [])

  -- What a handler's `false` comes to: the answer that there is no route.
  abbrev pub or_not_found : Bool × Exchange W → Answer W
  or_not_found (true, x) = some (true, x)
  or_not_found (false, x) = refuse world (bytes "Not Found") 404 x

  abbrev pub with_request : Exchange W → HttpRequest → Exchange W
  with_request x req = record x { request = req }

  abbrev pub handled : Answer W → Answer W
  handled none = none
  handled (some r) = or_not_found r

  unfoldable pub http_callback : Regex → Exchange W → Answer W
  unfolding dispatch register_routes send_error
  http_callback regex x = elim (dispatch regex register_routes x.request) [
    | none ↦ or_not_found (false, x)
    | some r ↦ handled (r.0 (with_request x r.1))
  ]
