-- ===== src/App/Handlers/ShareAccess.antt =====
-- application/src/ShareHandler.cpp: `handleShareAccess` and `handleShareDownload`.
pub mod Allowed
use c_cloud_storage.Prelude.{
  ℕ, Bool, true, false, ◌&&◌, ◌||◌, ◌++◌, ◌∷◌, [], length, leb, Option, none, some, not, ◌==◌,
  if◌then◌else◌, Bytes, bytes, eqb, find_text, is_empty,
}
use c_cloud_storage.Prelude.Number.{ℤ, pos, eq_ℤ}
use c_cloud_storage.Tcp.Buffer.{◌>>=◌}
use c_cloud_storage.Http.Request.{HttpRequest, get_header, get_path_param, get_query_value}
use c_cloud_storage.Http.Response.{HttpResponse, add_header, set_content_type, to_int}
use c_cloud_storage.Http.Response.Status
use c_cloud_storage.App.World.{World, Json, number, boolean, text, object, no_more, member}
use c_cloud_storage.App.Database.{Db}
use c_cloud_storage.App.Database.Shares.{ShareRecord, get_by_code}
use c_cloud_storage.App.Database.Sessions.{validate_session}
use c_cloud_storage.App.Exchange.{Exchange, Answer, refuse, reply, send_error, send_json}
use c_cloud_storage.App.Serve.{serve_file}
use c_cloud_storage.App.Handlers.Access.{
  Access, refused, granted, User, is_user, is_user_of, has_code,
}
use c_cloud_storage.App.Handlers.Static.{handle_index}

abbrev pub is_code_char : ℕ → Bool
is_code_char c = (leb b'a' c && leb c b'z') || (leb b'0' c && leb c b'9')

unfoldable pub all_code_chars : Bytes → Bool
all_code_chars [] = true
all_code_chars (c ∷ s) = is_code_char c && all_code_chars s

-- `userId` is 0 without a session.
abbrev pub id_of : User → ℤ
id_of none = pos 0
id_of (some user) = user.0

-- Whether the request may see a share.
unfoldable pub may_see : User → Bytes → ShareRecord → Bool
unfolding eqb
may_see user extract_code rec =
    if eq_ℤ rec.file_owner_id (id_of user)
    then true
    else if eqb rec.share_type (bytes "public")
    then true
    else if eqb rec.share_type (bytes "protected")
    then has_code extract_code rec.extract_code
    else eqb rec.share_type (bytes "user") && is_user_of user rec.shared_with_id

abbrev pub forbidden_message : ShareRecord → Bytes
forbidden_message rec =
    if eqb rec.share_type (bytes "protected") then bytes "需要正确的提取码" else bytes "您没有权限访问此文件"

unfoldable pub access_json : User → Bytes → ShareRecord → Json
access_json user share_code rec = object (
    member (bytes "code") (number (pos 0)) (
      member (bytes "message") (text (bytes "success")) (
        member (bytes "file")
          (object (
            member (bytes "id") (number rec.share_id) (
              member (bytes "fileId") (number rec.file_id) (
                member (bytes "ownerId") (number rec.owner_id) (
                  member (bytes "sharedWithId")
                    (number (elim rec.shared_with_id [ none ↦ pos 0 | some id ↦ id ]))
                    (member (bytes "shareType") (text rec.share_type) (
                      member (bytes "shareCode") (text rec.share_code) (
                        member (bytes "createdAt") (text rec.created_at) (
                          member (bytes "expireTime")
                            (text (elim rec.expire_time [ none ↦ [] | some t ↦ t ]))
                            (member (bytes "filename") (text rec.server_filename) (
                              member (bytes "originalName") (text rec.original_filename) (
                                member (bytes "size") (number (pos rec.file_size)) (
                                  member (bytes "type") (text rec.file_type) (
                                    member (bytes "ownerUsername") (text rec.owner_username) (
                                      member (bytes "isOwner")
                                        (boolean (eq_ℤ rec.file_owner_id (id_of user)))
                                        no_more)))))))))))))))
          (member (bytes "downloadUrl")
            (text
              (bytes "/share/download/" ++ (rec.server_filename ++ (bytes "?code=" ++ share_code))))
            no_more))))

abbrev pub wants_json : HttpRequest → Bool
wants_json req =
    eqb (get_header (bytes "X-Requested-With") req) (bytes "XMLHttpRequest")
    || (elim (find_text (bytes "application/json") (get_header (bytes "Accept") req)) [
      | none ↦ false
      | some _ ↦ true
    ])

-- The permission that a download by a share needs.
unfoldable pub share_access : User → Bytes → Bytes → Option ShareRecord → Access
unfolding eqb
share_access user filename extract_code none = refused (bytes "分享链接已失效或不存在") 404
share_access user filename extract_code (some rec) =
    let answer : Bool → Access = λ permitted.
      if permitted
      then granted rec.server_filename rec.original_filename
      else refused (forbidden_message rec) 403 in
    if not (eqb rec.server_filename filename)
    then refused (bytes "文件不存在") 404
    else if eqb rec.share_type (bytes "public")
    then answer true
    else if eqb rec.share_type (bytes "protected")
    then if is_empty extract_code
      then refused (bytes "需要提取码") 403
      else answer (has_code extract_code rec.extract_code)
    else answer (eqb rec.share_type (bytes "user") && is_user_of user rec.shared_with_id)

module _ {ℓ} {W : Type ℓ} (world : World W) where
  unfoldable pub show_share : User → Bytes → Bytes → Option ShareRecord → Exchange W → Answer W
  unfolding may_see access_json send_error send_json eqb
  show_share user share_code extract_code none x = refuse world (bytes "分享链接已失效或不存在") 404 x
  show_share user share_code extract_code (some rec) x =
      if may_see user extract_code rec
      then reply world (access_json user share_code rec) x
      else refuse world (forbidden_message rec) 403 x

  abbrev pub add_share_code : Bytes → Bool × Exchange W → Bool × Exchange W
  add_share_code share_code (result, x) =
      (result, record x { response = add_header (bytes "X-Share-Code") share_code x.response })

  unfoldable pub show_page : Bytes → Bytes → Option ShareRecord → Exchange W → Answer W
  unfolding handle_index add_header send_error
  show_page macro share_code none x = refuse world (bytes "分享链接已失效或不存在") 404 x
  show_page macro share_code (some rec) x = do
    r ← handle_index world macro x
    some (add_share_code share_code r)

  -- Both ways of access check the form of the code, each with its own message.
  unfoldable pub access_by_code : Bytes → User → Bytes → Exchange W → Answer W
  unfolding all_code_chars get_by_code show_share show_page get_header get_path_param find_text eqb
      send_error
  access_by_code macro user share_code x =
      let api = wants_json x.request in
      if is_empty share_code || not (length share_code == 32)
      then refuse world (if api then bytes "无效的分享码格式" else bytes "无效的分享链接") 400 x
      else if not (all_code_chars share_code)
      then refuse world (bytes "分享码包含非法字符") 400 x
      else (do
        share ← get_by_code world share_code x.db
        (if api
            then show_share user share_code (get_path_param (bytes "code") x.request) share x
            else show_page macro share_code share x))

  unfoldable pub handle_share_access : Bytes → Exchange W → Answer W
  unfolding validate_session access_by_code get_header send_error
  handle_share_access macro x = elim (world.regex_group (bytes "/share/([^/]+)") x.request.url) [
    | none ↦ refuse world (bytes "无效的分享链接") 400 x
    | some share_code ↦ (do
      user ← validate_session world (get_header (bytes "X-Session-ID") x.request) x.db
      access_by_code macro user share_code x)
  ]

  unfoldable pub share_head : ℕ → HttpResponse → HttpResponse
  unfolding add_header set_content_type
  share_head size r = add_header (bytes "Connection") (bytes "close") (
      add_header (bytes "Accept-Ranges") (bytes "bytes")
        (record (set_content_type (bytes "application/octet-stream")
          (record r { status_code = Status.ok; status_message = bytes "OK" })) {
            content_length = to_int size;
          }))

  unfoldable pub answer_share_access : Bytes → Exchange W → Access → Answer W
  unfolding send_error serve_file share_head
  answer_share_access upload_dir x (refused message code) = refuse world message code x
  answer_share_access upload_dir x (granted server original) =
      serve_file world share_head (bytes "Range Not Satisfiable") (upload_dir ++ (b'/' ∷ server))
        original x

  unfoldable pub download_by_share : Bytes → Bytes → Bytes → Bytes → Exchange W → Answer W
  unfolding validate_session get_by_code share_access answer_share_access get_header
  download_by_share upload_dir filename share_code extract_code x = do
    user ← validate_session world (get_header (bytes "X-Session-ID") x.request) x.db
    share ← get_by_code world share_code x.db
    answer_share_access upload_dir x (share_access user filename extract_code share)

  unfoldable pub handle_share_download : Bytes → Exchange W → Answer W
  unfolding get_path_param get_query_value download_by_share send_error
  handle_share_download upload_dir x =
      let filename = get_path_param (bytes "filename") x.request in
      let share_code = get_query_value (bytes "code") x.request in
      if is_empty filename
      then refuse world (bytes "Missing filename") 400 x
      else if is_empty share_code || not (length share_code == 32)
      then refuse world (bytes "无效的分享码格式") 400 x
      else download_by_share upload_dir filename share_code
          (get_query_value (bytes "extract_code") x.request) x
