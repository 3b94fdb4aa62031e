-- ===== src/App/Database/Injection.antt =====
-- The statements of the application that hold texts of a user.
use c_cloud_storage.Prelude.{
  ◌≡◌, refl, ap, ◌∙◌, Bool, true, false, ◌&&◌, not, [], ◌∷◌, ◌++◌, ◌==◌, Bytes, bytes, arith,
}
use c_cloud_storage.Prelude.Number.{ℤ, decimal_ℤ}
use c_cloud_storage.App.World.{World}
use c_cloud_storage.App.Database.{Db, escape}
use c_cloud_storage.App.Database.Files.{file_by_name_sql, owned_file_sql}
use c_cloud_storage.App.Database.Users.{search_sql}
use c_cloud_storage.App.Database.Shares.{get_by_code_sql}
use c_cloud_storage.App.Database.Sessions.{session_sql, end_session_sql}
use c_cloud_storage.App.Database.Outline.{
  SameOutline, EscapesTexts, outside, outline, is_closed, same-fixed, same-quoted, same-quoted_end,
  same_refl,
}
use c_cloud_storage.App.Handlers.Login.{user_sql, login_sql}

-- On a connected database, whatever the texts of a user are, each of these statements differs only
-- inside quotes from the same statement for other texts: those that look for a share by its code, a
-- session by its id, a file by its name, a file of a given user by its name, an account by its name,
-- and an account by its name and hash, and the one that deletes a session by its id. Outside of the
-- texts in quotes the server reads the same bytes.
pub lookups-SameOutline {ℓ} :
    {W : Type ℓ} (world : World W) (db : Db W) (a b c d : Bytes) (id : ℤ)
    → EscapesTexts world
    → db.connected ≡ true
    → SameOutline (get_by_code_sql world db a) (get_by_code_sql world db b)
      × SameOutline (session_sql world db a) (session_sql world db b)
      × SameOutline (end_session_sql world db a) (end_session_sql world db b)
      × SameOutline (file_by_name_sql world db a) (file_by_name_sql world db b)
      × SameOutline (owned_file_sql world db a id) (owned_file_sql world db b id)
      × SameOutline (user_sql world db a) (user_sql world db b)
      × SameOutline (login_sql world db a c) (login_sql world db b d)
unfolding get_by_code_sql session_sql end_session_sql file_by_name_sql owned_file_sql user_sql
    login_sql is_closed
lookups-SameOutline world db a b c d id escapes connected =
    let one_text = λ (pre post : Bytes) (closed : is_closed false pre ≡ true).
      same-fixed pre _ _ closed
        (same-quoted world escapes db a b post post connected (same_refl post)) in
    (
      one_text
          (bytes
            "SELECT fs.id AS share_id, fs.file_id, fs.owner_id, fs.shared_with_id, fs.share_type, fs.share_code, fs.extract_code, DATE_FORMAT(fs.created_at, '%Y-%m-%d %H:%i:%s') AS created_at, DATE_FORMAT(fs.expire_time, '%Y-%m-%d %H:%i:%s') AS expire_time, f.filename AS server_filename, f.original_filename, f.file_size, f.file_type, f.user_id AS file_owner_id, u.username AS owner_username FROM file_shares fs JOIN files f ON fs.file_id = f.id JOIN users u ON f.user_id = u.id WHERE fs.share_code = ")
          (bytes " AND (fs.expire_time IS NULL OR fs.expire_time > NOW())") refl,
      one_text (bytes "SELECT user_id, username FROM sessions WHERE session_id = ")
          (bytes " AND expire_time > NOW()") refl,
      same-fixed (bytes "DELETE FROM sessions WHERE session_id = ") _ _ refl
          (same-quoted_end world escapes db a b connected),
      one_text (bytes "SELECT id, filename, original_filename, user_id FROM files WHERE filename=")
          (bytes " LIMIT 1") refl,
      one_text (bytes "SELECT id FROM files WHERE filename = ")
          (bytes " AND user_id = " ++ (decimal_ℤ id ++ bytes " LIMIT 1")) refl,
      same-fixed (bytes "SELECT id FROM users WHERE username = ") _ _ refl
          (same-quoted_end world escapes db a b connected),
      same-fixed (bytes "SELECT id, username FROM users WHERE username = ") _ _ refl (
          same-quoted world escapes db a b _ _ connected (
            same-fixed (bytes " AND password = ") _ _ refl
              (same-quoted_end world escapes db c d connected))),
    )

-- Whether a text has no quote.
abbrev pub has_no_quote : Bytes → Bool
has_no_quote [] = true
has_no_quote (c ∷ s) = not (c == b'\'') && has_no_quote s

outline-no_quote :
    (k t : Bytes) → has_no_quote k ≡ true → outline outside (k ++ t) ≡ k ++ outline outside t
unfolding outline
outline-no_quote [] t h = refl
outline-no_quote (c ∷ k) t h =
    ground (arith, h, λ (g : has_no_quote k ≡ true). outline-no_quote k t g)

-- The statement that searches for users is not one of these: a keyword that the client does not
-- have to escape stands outside of the quotes, so that the server reads it as a part of the
-- statement.
pub search_sql_lem {ℓ} :
    {W : Type ℓ} (world : World W) (db : Db W) (keyword : Bytes) (user_id limit : ℤ)
    → escape world db keyword ≡ keyword
    → has_no_quote keyword ≡ true
    → outline outside (search_sql world db keyword user_id limit)
      ≡ bytes "SELECT id, username, email, password FROM users WHERE username LIKE ''%"
        ++ (keyword
            ++ outline outside (
                bytes "%' AND id != "
                ++ (decimal_ℤ user_id ++ (bytes " LIMIT " ++ decimal_ℤ limit))))
unfolding search_sql outline
search_sql_lem world db keyword user_id limit plain no_quote =
    ap (λ k. outline outside (search_of k)) plain
    ∙ ap (λ s. head ++ s) (outline-no_quote keyword tail no_quote)
  where
    head : Bytes
    head = bytes "SELECT id, username, email, password FROM users WHERE username LIKE ''%"

    tail : Bytes
    tail = bytes "%' AND id != " ++ (decimal_ℤ user_id ++ (bytes " LIMIT " ++ decimal_ℤ limit))

    search_of : Bytes → Bytes
    search_of k = head ++ (k ++ tail)
