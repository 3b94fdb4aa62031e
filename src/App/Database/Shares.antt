-- ===== src/App/Database/Shares.antt =====
-- application/src/inc/ShareRepository.h, in the way of the files' repository.
use c_cloud_storage.Prelude.{ℕ, zero, suc, Bool, Option, none, some, ◌++◌, Bytes, bytes}
use c_cloud_storage.Prelude.Number.{ℤ, pos, negsuc, decimal, decimal_ℤ}
use c_cloud_storage.Tcp.Buffer.{◌>>=◌}
use c_cloud_storage.App.World.{World, Row}
use c_cloud_storage.App.Database.{
  Db, exec, query, escape, quoted, insert_id, first_row, has_rows, cell, text_cell, int_cell,
  int_cell_or_zero, optional_int_cell, size_cell,
}
use c_cloud_storage.App.Database.Files.{inserted}

pub record ShareRecord : Type 0 where
  pub share_id : ℤ
  pub file_id : ℤ
  pub owner_id : ℤ
  pub shared_with_id : Option ℤ
  pub share_type : Bytes
  pub share_code : Bytes
  pub extract_code : Option Bytes
  pub created_at : Bytes
  pub expire_time : Option Bytes
  pub server_filename : Bytes
  pub original_filename : Bytes
  pub file_size : ℕ
  pub file_type : Bytes
  pub file_owner_id : ℤ
  pub owner_username : Bytes

abbrev pub or_unknown : Option Bytes → Bytes
or_unknown none = bytes "unknown"
or_unknown (some s) = s

-- The record of a row. `none` is an exception.
unfoldable pub share_record : Row → Option ShareRecord
unfolding cell text_cell int_cell optional_int_cell size_cell int_cell_or_zero
share_record row = do
  share_id ← int_cell 0 row
  file_id ← int_cell 1 row
  owner_id ← int_cell 2 row
  shared_with_id ← optional_int_cell 3 row
  file_size ← size_cell 11 row
  file_owner_id ← int_cell_or_zero 13 row
  some (record {
    share_id = share_id;
    file_id = file_id;
    owner_id = owner_id;
    shared_with_id = shared_with_id;
    share_type = text_cell 4 row;
    share_code = text_cell 5 row;
    extract_code = cell 6 row;
    created_at = text_cell 7 row;
    expire_time = cell 8 row;
    server_filename = text_cell 9 row;
    original_filename = text_cell 10 row;
    file_size = file_size;
    file_type = or_unknown (cell 12 row);
    file_owner_id = file_owner_id;
    owner_username = text_cell 14 row;
  })

-- `expireHours && *expireHours > 0`, written out
abbrev pub expire_expr : Option ℤ → Bytes
expire_expr none = bytes "NULL"
expire_expr (some (pos zero)) = bytes "NULL"
expire_expr (some (pos (suc n))) =
    bytes "DATE_ADD(NOW(), INTERVAL " ++ (decimal (suc n) ++ bytes " HOUR)")
expire_expr (some (negsuc n)) = bytes "NULL"

abbrev pub shared_with_expr : Option ℤ → Bytes
shared_with_expr none = bytes "NULL"
shared_with_expr (some id) = decimal_ℤ id

module _ {ℓ} {W : Type ℓ} (world : World W) where
  unfoldable pub get_by_code_sql : Db W → Bytes → Bytes
  unfolding escape
  get_by_code_sql db code =
      bytes
        "SELECT fs.id AS share_id, fs.file_id, fs.owner_id, fs.shared_with_id, fs.share_type, fs.share_code, fs.extract_code, DATE_FORMAT(fs.created_at, '%Y-%m-%d %H:%i:%s') AS created_at, DATE_FORMAT(fs.expire_time, '%Y-%m-%d %H:%i:%s') AS expire_time, f.filename AS server_filename, f.original_filename, f.file_size, f.file_type, f.user_id AS file_owner_id, u.username AS owner_username FROM file_shares fs JOIN files f ON fs.file_id = f.id JOIN users u ON f.user_id = u.id WHERE fs.share_code = "
      ++ (quoted world db code ++ bytes " AND (fs.expire_time IS NULL OR fs.expire_time > NOW())")

  unfoldable pub get_by_code : Bytes → Db W → Option (Option ShareRecord)
  unfolding query get_by_code_sql share_record
  get_by_code code db = elim (first_row (query world (get_by_code_sql db code) db)) [
    | none ↦ some none
    | some row ↦ (elim (share_record row) [ none ↦ none | some share ↦ some (some share) ])
  ]

  unfoldable pub is_file_owned_by : ℤ → ℤ → Db W → Bool
  unfolding query decimal_ℤ
  is_file_owned_by file_id user_id db =
      let q =
        bytes "SELECT 1 FROM files WHERE id = "
        ++ (decimal_ℤ file_id
            ++ (bytes " AND user_id = " ++ (decimal_ℤ user_id ++ bytes " LIMIT 1"))) in
      has_rows (query world q db)

  unfoldable pub exists_user_share : ℤ → ℤ → Db W → Bool
  unfolding query decimal_ℤ
  exists_user_share file_id shared_with_id db =
      let q =
        bytes "SELECT 1 FROM file_shares WHERE file_id = "
        ++ (decimal_ℤ file_id
            ++ (bytes " AND shared_with_id = "
                ++ (decimal_ℤ shared_with_id ++ bytes " AND share_type = 'user' LIMIT 1"))) in
      has_rows (query world q db)

  unfoldable pub set_private : ℤ → Db W → Bool × Db W
  unfolding exec decimal_ℤ
  set_private file_id db =
      exec world (bytes "DELETE FROM file_shares WHERE file_id = " ++ decimal_ℤ file_id) db

  abbrev pub extract_expr : Db W → Option Bytes → Bytes
  extract_expr db none = bytes "NULL"
  extract_expr db (some code) = quoted world db code

  unfoldable pub create_share_sql :
      Db W → ℤ → ℤ → Option ℤ → Bytes → Bytes → Option Bytes → Option ℤ → Bytes
  unfolding escape decimal decimal_ℤ
  create_share_sql db file_id owner_id shared_with_id share_type share_code extract_code hours =
      bytes
        "INSERT INTO file_shares (file_id, owner_id, shared_with_id, share_type, share_code, extract_code, expire_time) VALUES ("
      ++ (decimal_ℤ file_id
          ++ (bytes ", "
              ++ (decimal_ℤ owner_id
                  ++ (bytes ", "
                      ++ (shared_with_expr shared_with_id
                          ++ (bytes ", "
                              ++ (quoted world db share_type
                                  ++ (bytes ", "
                                      ++ (quoted world db share_code
                                          ++ (bytes ", "
                                              ++ (extract_expr db extract_code
                                                  ++ (bytes ", "
                                                      ++ (expire_expr hours
                                                          ++ bytes ")")))))))))))))

  unfoldable pub create_share :
      ℤ → ℤ → Option ℤ → Bytes → Bytes → Option Bytes → Option ℤ → Db W → Option ℤ × Db W
  unfolding exec insert_id create_share_sql
  create_share file_id owner_id shared_with_id share_type share_code extract_code hours db =
      inserted world (
        exec world
          (create_share_sql db file_id owner_id shared_with_id share_type share_code extract_code
            hours)
          db)
