-- ===== src/App/Handlers/Share.antt =====
-- application/src/ShareHandler.cpp: `handleShareFile` and `handleShareInfo`.
use c_cloud_storage.Prelude.{
  zero, suc, Bool, false, ◌&&◌, ◌++◌, [], Option, none, some, not, if◌then◌else◌, Bytes, bytes, eqb,
  is_empty,
}
use c_cloud_storage.Prelude.Number.{ℤ, pos, negsuc}
use c_cloud_storage.Tcp.Buffer.{◌>>=◌}
use c_cloud_storage.Http.Request.{get_path_param, get_query_value}
use c_cloud_storage.App.World.{
  World, Json, Members, number, text, object, no_more, member, random_string, letters_and_digits,
}
use c_cloud_storage.App.Database.{Db}
use c_cloud_storage.App.Database.Shares.{
  ShareRecord, get_by_code, is_file_owned_by, exists_user_share, set_private, create_share,
}
use c_cloud_storage.App.Exchange.{
  Exchange, Answer, with_session, refuse, reply, send_error, send_json,
}
use c_cloud_storage.App.Handlers.Fields.{
  Tried, throws, at_key, text_at, int_at, contains, is_null, try_refuse, try_reply, caught,
}
use c_cloud_storage.App.Handlers.Access.{has_code}
use c_cloud_storage.App.Handlers.Delete.{done}
use c_cloud_storage.App.Handlers.List.{text_member}

-- What a share is made with.
pub record Sharing : Type 0 where
  pub file_id : ℤ
  pub share_type : Bytes
  pub hours : Option ℤ

abbrev pub only_positive : ℤ → Option ℤ
only_positive (pos zero) = none
only_positive (pos (suc n)) = some (pos (suc n))
only_positive (negsuc n) = none

-- The hours after which the share ends. `none` is an exception.
unfoldable pub hours_of : Json → Option (Option ℤ)
unfolding contains at_key int_at
hours_of j =
    if contains (bytes "expireTime") j && not (is_null (at_key (bytes "expireTime") j))
    then (elim (int_at (bytes "expireTime") j) [ none ↦ none | some n ↦ some (only_positive n) ])
    else some none

-- The user that it is shared with, for the type `user`.
unfoldable pub shared_with_of : Bytes → Json → Option (Option ℤ)
unfolding eqb contains int_at
shared_with_of share_type j =
    if eqb share_type (bytes "user") && contains (bytes "sharedWithId") j
    then (elim (int_at (bytes "sharedWithId") j) [ none ↦ none | some n ↦ some (some n) ])
    else some none

abbrev pub number_member : Bytes → Option ℤ → Members → Members
number_member key none rest = rest
number_member key (some n) rest = member key (number n) rest

unfoldable pub shared_json : ℤ → Bytes → Bytes → Option ℤ → Option Bytes → Json
unfolding eqb
shared_json share_id share_type share_code shared_with extract_code =
    let last =
      if eqb share_type (bytes "user")
      then number_member (bytes "sharedWithId") shared_with no_more
      else if eqb share_type (bytes "protected")
      then text_member (bytes "extractCode") extract_code no_more
      else no_more in
    object (
      member (bytes "code") (number (pos 0)) (
        member (bytes "message") (text (bytes "分享成功")) (
          member (bytes "shareId") (number share_id) (
            member (bytes "shareType") (text share_type) (
              member (bytes "shareCode") (text share_code)
                (member (bytes "shareLink") (text (bytes "/share/" ++ share_code)) last))))))

unfoldable pub info_json : ShareRecord → Json
info_json rec = object (
    member (bytes "code") (number (pos 0)) (
      member (bytes "message") (text (bytes "success")) (
        member (bytes "shareType") (text rec.share_type) (
          member (bytes "file")
            (object (
              member (bytes "id") (number rec.share_id) (
                member (bytes "name") (text rec.server_filename) (
                  member (bytes "originalName") (text rec.original_filename) (
                    member (bytes "size") (number (pos rec.file_size)) (
                      member (bytes "type") (text rec.file_type) (
                        member (bytes "shareTime") (text rec.created_at) (
                          member (bytes "expireTime")
                            (text (elim rec.expire_time [ none ↦ [] | some t ↦ t ])) no_more))))))))
            no_more))))

module _ {ℓ} {W : Type ℓ} (world : World W) where
  -- The code that a protected share asks for.
  unfoldable pub extract_code_for : Bytes → W → Option Bytes × W
  unfolding eqb random_string
  extract_code_for share_type w =
      if eqb share_type (bytes "protected")
      then (let (code, v) = random_string world 6 letters_and_digits w in (some code, v))
      else (none, w)

  abbrev pub with_outside : W → Exchange W → Exchange W
  with_outside w x = record x { db = record x.db { outside = w } }

  unfoldable pub insert_share : ℤ → Sharing → Bytes → Option ℤ → Option Bytes → Exchange W → Tried W
  unfolding create_share shared_json send_error send_json
  insert_share user_id s share_code shared_with extract_code x =
      let (made, db) =
        create_share world s.file_id user_id shared_with s.share_type share_code extract_code
          s.hours x.db in
      elim made [
        | none ↦ try_refuse world (bytes "分享失败") 500 (record x { db = db })
        | some id ↦
            try_reply world (shared_json id s.share_type share_code shared_with extract_code)
              (record x { db = db })
      ]

  abbrev pub already_shared : ℤ → Option ℤ → Db W → Bool
  already_shared file_id none db = false
  already_shared file_id (some id) db = exists_user_share world file_id id db

  -- The two random codes come before the user that it is shared with is read.
  unfoldable pub make_share : ℤ → Sharing → Json → Exchange W → Tried W
  unfolding random_string extract_code_for shared_with_of exists_user_share insert_share send_error
  make_share user_id s j x =
      let (share_code, v) = random_string world 32 letters_and_digits x.db.outside in
      let (extract_code, u) = extract_code_for s.share_type v in
      let y = with_outside u x in
      elim (shared_with_of s.share_type j) [
        | none ↦ throws y
        | some shared_with ↦
            if already_shared s.file_id shared_with y.db
            then try_refuse world (bytes "已经分享给该用户") 400 y
            else insert_share user_id s share_code shared_with extract_code y
      ]

  -- The `try` block, for the file and the type that the body names.
  unfoldable pub share_as : ℤ → ℤ → Bytes → Json → Exchange W → Tried W
  unfolding eqb is_file_owned_by set_private hours_of make_share send_error send_json
  share_as user_id file_id share_type j x =
      if not (is_file_owned_by world file_id user_id x.db)
      then try_refuse world (bytes "您没有权限分享此文件") 403 x
      else if eqb share_type (bytes "private")
      then try_reply world (done (bytes "文件设置为私有成功"))
          (record x { db = (set_private world file_id x.db).1 })
      else (elim (hours_of j) [
        | none ↦ throws x
        | some hours ↦
            make_share user_id
              (record { file_id = file_id; share_type = share_type; hours = hours }) j x
      ])

  abbrev pub with_parsed : ℤ → Json → Exchange W → Tried W
  with_parsed user_id j x = elim (int_at (bytes "fileId") j) [
    | none ↦ throws x
    | some file_id ↦ (elim (text_at (bytes "shareType") j) [
      | none ↦ throws x
      | some share_type ↦ share_as user_id file_id share_type j x
    ])
  ]

  unfoldable pub share_file : ℤ → Exchange W → Answer W
  unfolding int_at text_at share_as send_error
  share_file user_id x =
      caught world (bytes "请求参数错误") 400
        (elim (world.parse x.request.body) [ none ↦ throws x | some j ↦ with_parsed user_id j x ])

  unfoldable pub handle_share_file : Exchange W → Answer W
  unfolding with_session share_file
  handle_share_file x = with_session world share_file x

  unfoldable pub info_of_share : Bytes → Option ShareRecord → Exchange W → Answer W
  unfolding eqb info_json send_error send_json
  info_of_share extract_code none x = refuse world (bytes "分享链接已失效或不存在") 404 x
  info_of_share extract_code (some rec) x =
      if eqb rec.share_type (bytes "protected") && not (has_code extract_code rec.extract_code)
      then refuse world (bytes "需要正确的提取码") 403 x
      else reply world (info_json rec) x

  unfoldable pub handle_share_info : Exchange W → Answer W
  unfolding get_path_param get_query_value get_by_code info_of_share send_error
  handle_share_info x =
      let share_code = get_path_param (bytes "code") x.request in
      if is_empty share_code then refuse world (bytes "Missing share code") 400 x else (do
        share ← get_by_code world share_code x.db
        info_of_share (get_query_value (bytes "extract_code") x.request) share x)
