-- ===== src/App/Database/Users.antt =====
-- application/src/inc/UserRepository.h.
use c_cloud_storage.Prelude.{Option, some, List, [], ◌∷◌, ◌++◌, Bytes, bytes}
use c_cloud_storage.Prelude.Number.{ℤ, decimal_ℤ}
use c_cloud_storage.Tcp.Buffer.{◌>>=◌}
use c_cloud_storage.App.World.{World, Row}
use c_cloud_storage.App.Database.{Db, query, escape, rows_of, text_cell, int_cell}

pub record UserRow : Type 0 where
  pub id : ℤ
  pub username : Bytes
  pub email : Bytes
  pub password : Bytes

unfoldable pub user_rows : List Row → Option (List UserRow)
unfolding int_cell text_cell
user_rows [] = some []
user_rows (row ∷ rows) = do
  id ← int_cell 0 row
  users ← user_rows rows
  some (
      record {
        id = id;
        username = text_cell 1 row;
        email = text_cell 2 row;
        password = text_cell 3 row;
      }
      ∷ users)

module _ {ℓ} {W : Type ℓ} (world : World W) where
  unfoldable pub search_sql : Db W → Bytes → ℤ → ℤ → Bytes
  unfolding escape decimal_ℤ
  search_sql db keyword exclude_user_id limit =
      bytes "SELECT id, username, email, password FROM users WHERE username LIKE ''%"
      ++ (escape world db keyword
          ++ (bytes "%' AND id != "
              ++ (decimal_ℤ exclude_user_id ++ (bytes " LIMIT " ++ decimal_ℤ limit))))

  unfoldable pub search_by_username_keyword_excluding : Bytes → ℤ → ℤ → Db W → Option (List UserRow)
  unfolding query search_sql user_rows
  search_by_username_keyword_excluding keyword exclude_user_id limit db =
      user_rows (rows_of (query world (search_sql db keyword exclude_user_id limit) db))
