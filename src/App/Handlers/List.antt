-- ===== src/App/Handlers/List.antt =====
-- application/src/FileHandler.cpp: `handleListFiles`.
use c_cloud_storage.Prelude.{
  Option, none, some, List, [], ◌∷◌, if◌then◌else◌, Bytes, bytes, eqb, is_empty,
}
use c_cloud_storage.Prelude.Number.{ℤ, pos}
use c_cloud_storage.Tcp.Buffer.{◌>>=◌}
use c_cloud_storage.Http.Request.{get_query_value}
use c_cloud_storage.App.World.{
  World, Json, Items, Members, number, boolean, text, array, object, end, item, no_more, member,
}
use c_cloud_storage.App.Database.{Db}
use c_cloud_storage.App.Database.Files.{
  FileRow, ShareInfoRow, list_my_files, list_shared_files, list_all_files, get_share_info,
}
use c_cloud_storage.App.Exchange.{Exchange, Answer, with_session, reply, send_json}

-- A member that is there if its value is.
abbrev pub text_member : Bytes → Option Bytes → Members → Members
text_member key none rest = rest
text_member key (some v) rest = member key (text v) rest

abbrev pub shared_with : ShareInfoRow → Members → Members
shared_with si rest = elim si.share_with_id [
  | none ↦ rest
  | some id ↦
      member (bytes "sharedWithId") (number id)
        (text_member (bytes "sharedWithUsername") si.shared_with_username rest)
]

unfoldable pub share_info_json : ShareInfoRow → Json
unfolding eqb
share_info_json si =
    let expire = text_member (bytes "expireTime") si.expire_time no_more in
    let shared = if eqb si.share_type (bytes "user") then shared_with si expire else expire in
    let extract =
      if eqb si.share_type (bytes "protected")
      then text_member (bytes "extractCode") si.extract_code shared
      else shared in
    object (
      member (bytes "type") (text si.share_type)
        (text_member (bytes "shareCode") si.share_code extract))

abbrev pub share_member : Option ShareInfoRow → Members
share_member none = no_more
share_member (some si) = member (bytes "shareInfo") (share_info_json si) no_more

unfoldable pub file_json : FileRow → Option ShareInfoRow → Json
unfolding share_info_json
file_json fr si = object (
    member (bytes "id") (number fr.id) (
      member (bytes "name") (text fr.filename) (
        member (bytes "originalName") (text fr.original_filename) (
          member (bytes "size") (number (pos fr.size)) (
            member (bytes "type") (text fr.type) (
              member (bytes "createdAt") (text fr.created_at)
                (member (bytes "isOwner") (boolean fr.is_owner) (share_member si))))))))

abbrev pub list_type_of : Bytes → Bytes
list_type_of t = if is_empty t then bytes "my" else t

module _ {ℓ} {W : Type ℓ} (world : World W) where
  -- The share is looked up for the files of the user only.
  abbrev pub info_of : FileRow → Db W → Option (Option ShareInfoRow)
  info_of fr db = if fr.is_owner then get_share_info world fr.id db else some none

  unfoldable pub file_items : List FileRow → Db W → Option Items
  unfolding get_share_info file_json
  file_items [] db = some end
  file_items (fr ∷ rows) db = do
    si ← info_of fr db
    rest ← file_items rows db
    some (item (file_json fr si) rest)

  unfoldable pub list_rows : Bytes → ℤ → Db W → Option (List FileRow)
  unfolding eqb list_my_files list_shared_files list_all_files
  list_rows list_type user_id db =
      if eqb list_type (bytes "my")
      then list_my_files world user_id db
      else if eqb list_type (bytes "shared")
      then list_shared_files world user_id db
      else if eqb list_type (bytes "all")
      then list_all_files world user_id db
      else some []

  unfoldable pub list_files_json : Items → Json
  list_files_json files = object (
      member (bytes "code") (number (pos 0)) (
        member (bytes "message") (text (bytes "Success"))
          (member (bytes "files") (array files) no_more)))

  unfoldable pub list_files : ℤ → Exchange W → Answer W
  unfolding list_rows file_items list_files_json get_query_value send_json
  list_files user_id x = do
    rows ← list_rows (list_type_of (get_query_value (bytes "type") x.request)) user_id x.db
    files ← file_items rows x.db
    reply world (list_files_json files) x

  unfoldable pub handle_list_files : Exchange W → Answer W
  unfolding with_session list_files
  handle_list_files x = with_session world list_files x
