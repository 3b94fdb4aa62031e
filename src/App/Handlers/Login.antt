-- ===== src/App/Handlers/Login.antt =====
-- application/src/AuthHandler.cpp: `handleRegister`, `handleLogin` and `handleLogout`. `what` is the text
-- of an exception, if there is one.
use c_cloud_storage.Prelude.{
  ◌||◌, ◌++◌, Option, none, some, [], if◌then◌else◌, Bytes, bytes, is_empty,
}
use c_cloud_storage.Prelude.Number.{ℤ, pos}
use c_cloud_storage.Tcp.Buffer.{◌>>=◌}
use c_cloud_storage.Http.Request.{get_header}
use c_cloud_storage.Http.Response.{to_int}
use c_cloud_storage.App.World.{
  World, Row, Json, number, text, object, no_more, member, pseudo_sha256,
}
use c_cloud_storage.App.Database.{
  Db, exec, query, escape, quoted, insert_id, first_row, has_rows, int_cell, cell,
}
use c_cloud_storage.App.Database.Sessions.{end_session, generate_session_id, save_session}
use c_cloud_storage.App.Exchange.{Exchange, Answer, refuse, reply, send_error, send_json}
use c_cloud_storage.App.Handlers.Fields.{
  Tried, throws, text_at, text_or_empty, try_refuse, try_reply, caught,
}
use c_cloud_storage.App.Handlers.Delete.{done}

pub record Account : Type 0 where
  pub username : Bytes
  pub password : Bytes
  pub email : Bytes

-- The fields of a registration and of a login. `none` is an exception.
unfoldable pub account_of : Json → Option Account
unfolding text_at text_or_empty
account_of j = do
  username ← text_at (bytes "username") j
  password ← text_at (bytes "password") j
  email ← text_or_empty (bytes "email") j
  some (record { username = username; password = password; email = email })

unfoldable pub login_of : Json → Option Account
unfolding text_at
login_of j = do
  username ← text_at (bytes "username") j
  password ← text_at (bytes "password") j
  some (record { username = username; password = password; email = [] })

-- The account of a row, whose cells throw on null.
abbrev pub user_of_row : Row → Option (ℤ × Bytes)
user_of_row row = do user_id ← int_cell 0 row; name ← cell 1 row; some (user_id, name)

module _ {ℓ} {W : Type ℓ} (world : World W) where
  unfoldable pub user_sql : Db W → Bytes → Bytes
  unfolding escape
  user_sql db username = bytes "SELECT id FROM users WHERE username = " ++ quoted world db username

  abbrev pub email_expr : Db W → Bytes → Bytes
  email_expr db email = if is_empty email then bytes "NULL" else quoted world db email

  unfoldable pub register_sql : Db W → Bytes → Bytes → Bytes → Bytes
  unfolding escape
  register_sql db username hashed email =
      bytes "INSERT INTO users (username, password, email) VALUES ("
      ++ (quoted world db username
          ++ (bytes ", "
              ++ (quoted world db hashed ++ (bytes ", " ++ (email_expr db email ++ bytes ")")))))

  abbrev pub registered_json : ℤ → Json
  registered_json user_id = object (
      member (bytes "code") (number (pos 0)) (
        member (bytes "message") (text (bytes "注册成功"))
          (member (bytes "userId") (number user_id) no_more)))

  unfoldable pub insert_account : Account → Exchange W → Tried W
  unfolding exec register_sql pseudo_sha256 insert_id send_error send_json
  insert_account a x =
      let (inserted, db) =
        exec world (register_sql x.db a.username (pseudo_sha256 world a.password) a.email) x.db in
      if inserted
      then try_reply world (registered_json (to_int (insert_id world db))) (record x { db = db })
      else try_refuse world (bytes "注册失败，请稍后重试") 500 (record x { db = db })

  unfoldable pub register : Account → Exchange W → Tried W
  unfolding query user_sql insert_account send_error
  register a x =
      if is_empty a.username || is_empty a.password
      then try_refuse world (bytes "用户名和密码不能为空") 400 x
      else if has_rows (query world (user_sql x.db a.username) x.db)
      then try_refuse world (bytes "用户名已存在") 400 x
      else insert_account a x

  -- The account that the body of the request holds.
  abbrev pub with_account :
      (Json → Option Account) → (Account → Exchange W → Tried W) → Exchange W → Tried W
  with_account read f x = elim (world.parse x.request.body) [
    | none ↦ throws x
    | some j ↦ (elim (read j) [ none ↦ throws x | some a ↦ f a x ])
  ]

  unfoldable pub handle_register : Bytes → Exchange W → Answer W
  unfolding account_of register send_error
  handle_register what x =
      caught world (bytes "注册失败: " ++ what) 500 (with_account account_of register x)

  unfoldable pub login_sql : Db W → Bytes → Bytes → Bytes
  unfolding escape
  login_sql db username hashed =
      bytes "SELECT id, username FROM users WHERE username = "
      ++ (quoted world db username ++ (bytes " AND password = " ++ quoted world db hashed))

  abbrev pub login_json : Bytes → ℤ → Bytes → Json
  login_json session_id user_id name = object (
      member (bytes "code") (number (pos 0)) (
        member (bytes "message") (text (bytes "登录成功")) (
          member (bytes "sessionId") (text session_id) (
            member (bytes "userId") (number user_id)
              (member (bytes "username") (text name) no_more)))))

  -- A new session for the user.
  unfoldable pub start_session : ℤ → Bytes → Exchange W → Tried W
  unfolding generate_session_id save_session send_json
  start_session user_id name x =
      let (session_id, w) = generate_session_id world x.db.outside in
      let db = save_session world session_id user_id name (record x.db { outside = w }) in
      try_reply world (login_json session_id user_id name) (record x { db = db })

  unfoldable pub login : Account → Exchange W → Tried W
  unfolding query login_sql pseudo_sha256 int_cell cell start_session send_error
  login a x =
      if is_empty a.username || is_empty a.password
      then try_refuse world (bytes "用户名和密码不能为空") 400 x
      else (elim (first_row
          (query world (login_sql x.db a.username (pseudo_sha256 world a.password)) x.db)) [
            | none ↦ try_refuse world (bytes "用户名或密码错误") 401 x
            | some row ↦ (elim (user_of_row row) [
              | none ↦ throws x
              | some user ↦ start_session user.0 user.1 x
            ])
          ])

  unfoldable pub handle_login : Bytes → Exchange W → Answer W
  unfolding login_of login send_error
  handle_login what x = caught world (bytes "登录失败: " ++ what) 500 (with_account login_of login x)

  unfoldable pub handle_logout : Exchange W → Answer W
  unfolding get_header end_session send_error send_json
  handle_logout x =
      let session_id = get_header (bytes "Session-Id") x.request in
      if is_empty session_id
      then refuse world (bytes "未提供会话ID") 400 x
      else reply world (done (bytes "登出成功")) (record x { db = end_session world session_id x.db })
