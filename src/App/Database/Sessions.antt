-- ===== src/App/Database/Sessions.antt =====
-- The sessions of application/src/AuthHandler.cpp. `none` of `validate_session`: an exception, or a
-- null name, which the program takes as a text.
use c_cloud_storage.Prelude.{Option, none, some, ◌++◌, if◌then◌else◌, Bytes, bytes, is_empty}
use c_cloud_storage.Prelude.Number.{ℤ, decimal_ℤ}
use c_cloud_storage.Tcp.Buffer.{◌>>=◌}
use c_cloud_storage.App.World.{World}
use c_cloud_storage.App.Database.{Db, exec, query, escape, quoted, first_row, cell, int_cell}
use c_cloud_storage.App.World.{random_string, letters_and_digits}

module _ {ℓ} {W : Type ℓ} (world : World W) where
  unfoldable pub session_sql : Db W → Bytes → Bytes
  unfolding escape
  session_sql db session_id =
      bytes "SELECT user_id, username FROM sessions WHERE session_id = "
      ++ (quoted world db session_id ++ bytes " AND expire_time > NOW()")

  -- The user and the name of a session that is there and has not expired.
  unfoldable pub validate_session : Bytes → Db W → Option (Option (ℤ × Bytes))
  unfolding query session_sql int_cell cell
  validate_session session_id db =
      if is_empty session_id
      then some none
      else (elim (first_row (query world (session_sql db session_id) db)) [
        | none ↦ some none
        | some row ↦ (do
          user_id ← int_cell 0 row
          username ← cell 1 row
          some (some (user_id, username)))
      ])

  unfoldable pub end_session_sql : Db W → Bytes → Bytes
  unfolding escape
  end_session_sql db session_id =
      bytes "DELETE FROM sessions WHERE session_id = " ++ quoted world db session_id

  unfoldable pub end_session : Bytes → Db W → Db W
  unfolding exec end_session_sql
  end_session session_id db =
      if is_empty session_id then db else (exec world (end_session_sql db session_id) db).1

  unfoldable pub generate_session_id : W → Bytes × W
  unfolding random_string
  generate_session_id w = random_string world 32 letters_and_digits w

  unfoldable pub save_session_sql : Db W → Bytes → ℤ → Bytes → Bytes
  unfolding escape decimal_ℤ
  save_session_sql db session_id user_id username =
      bytes "INSERT INTO sessions (session_id, user_id, username, expire_time) VALUES ("
      ++ (quoted world db session_id
          ++ (bytes ", "
              ++ (decimal_ℤ user_id
                  ++ (bytes ", "
                      ++ (quoted world db username ++ bytes ", NOW() + INTERVAL 7 DAY)")))))

  unfoldable pub save_session : Bytes → ℤ → Bytes → Db W → Db W
  unfolding exec save_session_sql
  save_session session_id user_id username db =
      (exec world (save_session_sql db session_id user_id username) db).1
