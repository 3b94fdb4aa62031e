-- ===== src/App/Database/Files.antt =====
-- application/src/inc/FileRepository.h. A method that reads gives its result, `none` where it
-- throws; a method that changes something gives the database too.
use c_cloud_storage.Prelude.{
  ℕ, zero, suc, Bool, true, false, Option, none, some, List, [], ◌∷◌, ◌++◌, Bytes, bytes,
}
use c_cloud_storage.Prelude.Number.{ℤ, pos, negsuc, eq_ℤ, decimal, decimal_ℤ}
use c_cloud_storage.Tcp.Buffer.{◌>>=◌}
use c_cloud_storage.Http.Response.{to_int}
use c_cloud_storage.App.World.{World, Row}
use c_cloud_storage.App.Database.{
  Db, exec, query, escape, quoted, insert_id, first_row, rows_of, cell, text_cell, int_cell,
  int_cell_or_zero, optional_int_cell, size_cell,
}

pub record FileRow : Type 0 where
  pub id : ℤ
  pub filename : Bytes
  pub original_filename : Bytes
  pub size : ℕ
  pub type : Bytes
  pub created_at : Bytes
  pub is_owner : Bool

pub record ShareInfoRow : Type 0 where
  pub share_type : Bytes
  pub share_with_id : Option ℤ
  pub shared_with_username : Option Bytes
  pub share_code : Option Bytes
  pub extract_code : Option Bytes
  pub expire_time : Option Bytes

pub record FileBasic : Type 0 where
  pub id : ℤ
  pub server_filename : Bytes
  pub original_filename : Bytes
  pub owner_id : ℤ

-- What the loops make of a row, and what they take for the owner.
abbrev pub file_row : Row → Bool → Option FileRow
file_row row owner = do
  id ← int_cell 0 row
  size ← size_cell 3 row
  some (record {
    id = id;
    filename = text_cell 1 row;
    original_filename = text_cell 2 row;
    size = size;
    type = text_cell 4 row;
    created_at = text_cell 5 row;
    is_owner = owner;
  })

-- `row[6] && std::stoi(row[6]) == 1`
abbrev pub owner_cell : Row → Option Bool
owner_cell row = elim (optional_int_cell 6 row) [
  | none ↦ none
  | some none ↦ some false
  | some (some n) ↦ some (eq_ℤ n (pos 1))
]

unfoldable pub file_rows : (Row → Option Bool) → List Row → Option (List FileRow)
unfolding int_cell size_cell text_cell
file_rows owner [] = some []
file_rows owner (row ∷ rows) = do
  o ← owner row
  file ← file_row row o
  files ← file_rows owner rows
  some (file ∷ files)

module _ {ℓ} {W : Type ℓ} (world : World W) where
  unfoldable pub list_my_files : ℤ → Db W → Option (List FileRow)
  unfolding query file_rows decimal_ℤ
  list_my_files user_id db =
      let q =
        bytes
          "SELECT id, filename, original_filename, file_size, file_type, created_at FROM files WHERE user_id = "
        ++ decimal_ℤ user_id in
      file_rows (λ _. some true) (rows_of (query world q db))

  unfoldable pub list_shared_files : ℤ → Db W → Option (List FileRow)
  unfolding query file_rows decimal_ℤ
  list_shared_files user_id db =
      let q =
        bytes
          "SELECT f.id, f.filename, f.original_filename, f.file_size, f.file_type, f.created_at FROM files f JOIN file_shares fs ON f.id = fs.file_id WHERE (fs.shared_with_id = "
        ++ (decimal_ℤ user_id
            ++ (bytes " OR fs.share_type = 'public') AND f.user_id != " ++ decimal_ℤ user_id)) in
      file_rows (λ _. some false) (rows_of (query world q db))

  unfoldable pub list_all_files : ℤ → Db W → Option (List FileRow)
  unfolding query file_rows decimal_ℤ optional_int_cell
  list_all_files user_id db =
      let q =
        bytes
          "SELECT f.id, f.filename, f.original_filename, f.file_size, f.file_type, f.created_at, CASE WHEN f.user_id = "
        ++ (decimal_ℤ user_id
            ++ (bytes
                  " THEN 1 ELSE 0 END as is_owner, u.username FROM files f LEFT JOIN file_shares fs ON f.id = fs.file_id LEFT JOIN users u ON fs.shared_with_id = u.id WHERE f.user_id = "
                ++ (decimal_ℤ user_id
                    ++ (bytes " OR fs.shared_with_id = "
                        ++ (decimal_ℤ user_id ++ bytes " OR fs.share_type = 'public'"))))) in
      file_rows owner_cell (rows_of (query world q db))

  -- The share of a file, if it has one.
  unfoldable pub get_share_info : ℤ → Db W → Option (Option ShareInfoRow)
  unfolding query decimal_ℤ text_cell optional_int_cell cell
  get_share_info file_id db =
      let q =
        bytes
          "SELECT fs.share_type, fs.shared_with_id, u.username, fs.share_code, fs.extract_code, fs.expire_time FROM file_shares fs LEFT JOIN users u ON fs.shared_with_id = u.id WHERE fs.file_id = "
        ++ (decimal_ℤ file_id ++ bytes " LIMIT 1") in
      elim (first_row (query world q db)) [
        | none ↦ some none
        | some row ↦ (elim (optional_int_cell 1 row) [
          | none ↦ none
          | some id ↦ some (
              some (record {
                share_type = text_cell 0 row;
                share_with_id = id;
                shared_with_username = cell 2 row;
                share_code = cell 3 row;
                extract_code = cell 4 row;
                expire_time = cell 5 row;
              }))
        ])
      ]

  unfoldable pub owned_file_sql : Db W → Bytes → ℤ → Bytes
  unfolding escape decimal_ℤ
  owned_file_sql db server_filename owner_id =
      bytes "SELECT id FROM files WHERE filename = "
      ++ (quoted world db server_filename
          ++ (bytes " AND user_id = " ++ (decimal_ℤ owner_id ++ bytes " LIMIT 1")))

  abbrev pub positive_id : ℤ → Option ℤ
  positive_id (pos zero) = none
  positive_id (pos (suc n)) = some (pos (suc n))
  positive_id (negsuc n) = none

  unfoldable pub get_owned_file_id_by_server_filename : Bytes → ℤ → Db W → Option (Option ℤ)
  unfolding query owned_file_sql int_cell_or_zero
  get_owned_file_id_by_server_filename server_filename owner_id db =
      elim (first_row (query world (owned_file_sql db server_filename owner_id) db)) [
        | none ↦ some none
        | some row ↦ (elim (int_cell_or_zero 0 row) [
          | none ↦ none
          | some id ↦ some (positive_id id)
        ])
      ]

  unfoldable pub file_by_name_sql : Db W → Bytes → Bytes
  unfolding escape
  file_by_name_sql db server_filename =
      bytes "SELECT id, filename, original_filename, user_id FROM files WHERE filename="
      ++ (quoted world db server_filename ++ bytes " LIMIT 1")

  unfoldable pub get_by_server_filename : Bytes → Db W → Option (Option FileBasic)
  unfolding query file_by_name_sql int_cell_or_zero text_cell
  get_by_server_filename server_filename db =
      elim (first_row (query world (file_by_name_sql db server_filename) db)) [
        | none ↦ some none
        | some row ↦ (do
          id ← int_cell_or_zero 0 row
          owner ← int_cell_or_zero 3 row
          some (elim (positive_id id) [
            | none ↦ none
            | some i ↦ some (record {
              id = i;
              server_filename = text_cell 1 row;
              original_filename = text_cell 2 row;
              owner_id = owner;
            })
          ]))
      ]

  unfoldable pub create_file_sql : Db W → Bytes → Bytes → ℕ → Bytes → ℤ → Bytes
  unfolding escape decimal decimal_ℤ
  create_file_sql db server_filename original_filename file_size file_type user_id =
      bytes
        "INSERT INTO files (filename, original_filename, file_size, file_type, user_id) VALUES ("
      ++ (quoted world db server_filename
          ++ (bytes ", "
              ++ (quoted world db original_filename
                  ++ (bytes ", "
                      ++ (decimal file_size
                          ++ (bytes ", "
                              ++ (quoted world db file_type
                                  ++ (bytes ", " ++ (decimal_ℤ user_id ++ bytes ")")))))))))

  -- The number that an insertion gives, if it was carried out.
  abbrev pub inserted : Bool × Db W → Option ℤ × Db W
  inserted (true, db) = (some (to_int (insert_id world db)), db)
  inserted (false, db) = (none, db)

  unfoldable pub create_file : Bytes → Bytes → ℕ → Bytes → ℤ → Db W → Option ℤ × Db W
  unfolding exec insert_id create_file_sql
  create_file server_filename original_filename file_size file_type user_id db = inserted (
      exec world (create_file_sql db server_filename original_filename file_size file_type user_id)
        db)

  unfoldable pub delete_shares_by_file_id : ℤ → Db W → Bool × Db W
  unfolding exec decimal_ℤ
  delete_shares_by_file_id file_id db =
      exec world (bytes "DELETE FROM file_shares WHERE file_id = " ++ decimal_ℤ file_id) db

  unfoldable pub delete_file_by_id : ℤ → Db W → Bool × Db W
  unfolding exec decimal_ℤ
  delete_file_by_id file_id db =
      exec world (bytes "DELETE FROM files WHERE id = " ++ decimal_ℤ file_id) db
