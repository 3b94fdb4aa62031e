-- ===== src/App/Handlers/Delete.antt =====
-- application/src/FileHandler.cpp: `handleDelete`.
use c_cloud_storage.Prelude.{◌++◌, ◌∷◌, Option, none, some, if◌then◌else◌, Bytes, bytes, is_empty}
use c_cloud_storage.Prelude.Number.{ℤ, pos}
use c_cloud_storage.Http.Request.{get_path_param}
use c_cloud_storage.App.World.{World, Json, number, text, object, no_more, member}
use c_cloud_storage.App.Database.Files.{get_owned_file_id_by_server_filename, delete_file_by_id}
use c_cloud_storage.App.Filenames
use c_cloud_storage.App.Filenames.{FilenameMap, remove}
use c_cloud_storage.App.Exchange.{
  Exchange, Answer, with_session, refuse, reply, send_error, send_json,
}

-- `{"code": 0, "message": ...}`
abbrev pub done : Bytes → Json
done message =
    object
      (member (bytes "code") (number (pos 0)) (member (bytes "message") (text message) no_more))

module _ {ℓ} {W : Type ℓ} (world : World W) where
  -- `unlink`, whose failure is only logged
  abbrev pub unlink_file : Bytes → W → W
  unlink_file filepath w =
      if world.access filepath w then or_same_world w (world.unlink filepath w) else w
    where
      or_same_world : W → Option W → W
      or_same_world u none = u
      or_same_world u (some v) = v

  -- The file and its original name, once the row is deleted.
  unfoldable pub forget_file : Filenames.Json → Bytes → Bytes → Exchange W → Exchange W
  unfolding remove
  forget_file maps filepath filename x = record x {
    db = record x.db { outside = unlink_file filepath x.db.outside };
    filenames = remove maps filename x.filenames;
  }

  unfoldable pub delete_owned : Filenames.Json → Bytes → Bytes → ℤ → Exchange W → Answer W
  unfolding delete_file_by_id forget_file send_error send_json
  delete_owned maps upload_dir filename file_id x =
      let (deleted, db) = delete_file_by_id world file_id x.db in
      if deleted
      then reply world (done (bytes "success"))
          (forget_file maps (upload_dir ++ (b'/' ∷ filename)) filename (record x { db = db }))
      else refuse world (bytes "删除文件失败") 500 (record x { db = db })

  unfoldable pub delete_file : Filenames.Json → Bytes → ℤ → Exchange W → Answer W
  unfolding get_path_param get_owned_file_id_by_server_filename delete_owned send_error
  delete_file maps upload_dir user_id x =
      let filename = get_path_param (bytes "filename") x.request in
      if is_empty filename
      then refuse world (bytes "缺少文件名") 400 x
      else (elim (get_owned_file_id_by_server_filename world filename user_id x.db) [
        | none ↦ none
        | some none ↦ refuse world (bytes "文件不存在或无权限删除") 404 x
        | some (some file_id) ↦ delete_owned maps upload_dir filename file_id x
      ])

  unfoldable pub handle_delete : Filenames.Json → Bytes → Exchange W → Answer W
  unfolding with_session delete_file
  handle_delete maps upload_dir x = with_session world (delete_file maps upload_dir) x
