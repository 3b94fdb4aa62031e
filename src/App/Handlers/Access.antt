-- ===== src/App/Handlers/Access.antt =====
-- application/src/FileHandler.cpp: `handleDownload`.
pub mod Allowed
use c_cloud_storage.Prelude.{
  ℕ, Bool, true, false, ◌&&◌, ◌||◌, Option, none, some, List, [], ◌∷◌, ◌++◌, not, if◌then◌else◌,
  Bytes, bytes, eqb, is_empty,
}
use c_cloud_storage.Prelude.Number.{ℤ, eq_ℤ, decimal}
use c_cloud_storage.Tcp.Buffer.{◌>>=◌}
use c_cloud_storage.Http.Request.{HttpRequest, get_header, get_path_param, get_query_value}
use c_cloud_storage.Http.Response.{HttpResponse, add_header, set_content_type}
use c_cloud_storage.Http.Response.Status
use c_cloud_storage.App.World.{World}
use c_cloud_storage.App.Database.{Db}
use c_cloud_storage.App.Database.Files.{FileBasic, get_by_server_filename}
use c_cloud_storage.App.Database.Shares.{ShareRecord, get_by_code}
use c_cloud_storage.App.Database.Sessions.{validate_session}
use c_cloud_storage.App.Exchange.{Exchange, Answer, refuse, send_error}
use c_cloud_storage.App.Serve.{serve_file}

-- What the checks come to: an answer, or the file and its name.
pub data Access : Type 0 where
  refused : Bytes → ℕ → Access
  granted : (server_filename original_filename : Bytes) → Access

-- The user of a request, if it has a valid session.
abbrev pub User : Type 0
User = Option (ℤ × Bytes)

abbrev pub is_user : User → ℤ → Bool
is_user none id = false
is_user (some user) id = eq_ℤ user.0 id

abbrev pub is_user_of : User → Option ℤ → Bool
is_user_of user none = false
is_user_of user (some id) = is_user user id

-- `share.extractCode && !extractCode.empty() && extractCode == *share.extractCode`
abbrev pub has_code : Bytes → Option Bytes → Bool
has_code given none = false
has_code given (some code) = not (is_empty given) && eqb given code

unfoldable pub share_permits : User → Bytes → ShareRecord → Bool
unfolding eqb
share_permits user extract_code share =
    if is_user user share.file_owner_id
    then true
    else if eqb share.share_type (bytes "public")
    then true
    else if eqb share.share_type (bytes "protected") && has_code extract_code share.extract_code
    then true
    else eqb share.share_type (bytes "user") && is_user_of user share.shared_with_id

unfoldable pub by_share : User → Bytes → Bytes → Option ShareRecord → Access
unfolding eqb share_permits
by_share user filename extract_code none = refused (bytes "无效的分享码或分享已过期") 404
by_share user filename extract_code (some share) =
    if not (eqb share.server_filename filename)
    then refused (bytes "文件不存在") 404
    else if share_permits user extract_code share
    then granted share.server_filename share.original_filename
    else refused (bytes "无权限下载") 403

unfoldable pub by_owner : User → Option FileBasic → Access
by_owner user none = refused (bytes "文件不存在") 404
by_owner user (some file) =
    if is_user user file.owner_id
    then granted file.server_filename file.original_filename
    else refused (bytes "无权限下载") 403

abbrev pub session_id_of : HttpRequest → Bytes
session_id_of req =
    if is_empty (get_header (bytes "X-Session-ID") req)
    then get_query_value (bytes "sessionId") req
    else get_header (bytes "X-Session-ID") req

module _ {ℓ} {W : Type ℓ} (world : World W) where
  -- The checks for a user, who may be none.
  unfoldable pub check_access : User → HttpRequest → Db W → Option Access
  unfolding get_path_param get_query_value get_by_code get_by_server_filename by_share by_owner
  check_access user req db =
      let filename = get_path_param (bytes "filename") req in
      let share_code = get_query_value (bytes "code") req in
      let extract_code = get_query_value (bytes "extract_code") req in
      if is_empty filename
      then some (refused (bytes "丢失文件") 400)
      else if not (is_empty share_code)
      then (do
        share ← get_by_code world share_code db
        some (by_share user filename extract_code share))
      else (elim user [
        | none ↦ some (refused (bytes "请先登录") 401)
        | some u ↦ (do
          file ← get_by_server_filename world filename db
          some (by_owner (some u) file))
      ])

  unfoldable pub download_head : ℕ → HttpResponse → HttpResponse
  unfolding add_header set_content_type decimal
  download_head size r = add_header (bytes "Connection") (bytes "close") (
      add_header (bytes "Accept-Ranges") (bytes "bytes") (
        add_header (bytes "Content-Length") (decimal size) (
          set_content_type (bytes "application/octet-stream")
            (record r { status_code = Status.ok; status_message = bytes "OK" }))))

  unfoldable pub answer_access : Bytes → Exchange W → Access → Answer W
  unfolding send_error serve_file download_head
  answer_access upload_dir x (refused message code) = refuse world message code x
  answer_access upload_dir x (granted server original) =
      serve_file world download_head (bytes "无法满足的 Range 请求") (upload_dir ++ (b'/' ∷ server))
        original x

  unfoldable pub handle_download : Bytes → Exchange W → Answer W
  unfolding validate_session check_access answer_access
  handle_download upload_dir x = do
    user ← validate_session world (session_id_of x.request) x.db
    access ← check_access user x.request x.db
    answer_access upload_dir x access
