-- ===== src/App/Handlers/Guards.antt =====
-- What the handlers of application/src change only behind their checks.
use c_cloud_storage.Prelude.{
  ℕ, ◌≡◌, ◌⊎◌, inl, inr, refl, sym, ap, ◌∙◌, true, ◌||◌, not, Option, none, some, Bytes, bytes,
  is_empty, if_then, if_else, Bool-cases, subst, ◌++◌,
}
use c_cloud_storage.Prelude.Number.{ℤ}
use c_cloud_storage.Tcp.Buffer.{◌>>=◌}
use c_cloud_storage.Http.Request.{get_header, get_path_param}
use c_cloud_storage.App.World.{World, Row, Json, pseudo_sha256}
use c_cloud_storage.App.Database.{query, first_row}
use c_cloud_storage.App.Database.Files.{get_owned_file_id_by_server_filename}
use c_cloud_storage.App.Database.Shares.{is_file_owned_by}
use c_cloud_storage.App.Database.Sessions.{validate_session}
use c_cloud_storage.App.Filenames
use c_cloud_storage.App.Exchange.{
  Exchange, Answer, with_session, refuse, send_error, error_body, error_response, shut_down,
}
use c_cloud_storage.App.Handlers.Delete.{delete_owned, delete_file, handle_delete}
use c_cloud_storage.App.Handlers.Fields.{
  Tried, returns, throws, text_at, int_at, try_refuse, caught, or_throw,
}
use c_cloud_storage.App.Handlers.Login.{
  Account, login_of, login_sql, login, handle_login, with_account, user_of_row, start_session,
}
use c_cloud_storage.App.Handlers.Share.{share_as, share_file, handle_share_file, with_parsed}

-- Neither the database nor the rest of the outside nor the file names change.
abbrev pub Same {ℓ} : {W : Type ℓ} → Exchange W → Exchange W → Type ℓ
Same x y = (y.db ≡ x.db) × (y.filenames ≡ x.filenames)

abbrev pub Unchanged {ℓ} : {W : Type ℓ} → Exchange W → Answer W → Type ℓ
Unchanged x none = Same x x
Unchanged x (some (b, y)) = Same x y

refuse-Unchanged {ℓ} :
    {W : Type ℓ} (world : World W) (message : Bytes) (code : ℕ) (x : Exchange W)
    → Unchanged x (refuse world message code x)
unfolding send_error
refuse-Unchanged {W = W} world message code x = at (world.dump (error_body code message))
  where
    sent : Bytes → Exchange W
    sent body = record x {
      response = error_response code message body x.response;
      on_write_complete = some shut_down;
    }

    at : (o : Option Bytes) → Unchanged x ((o >>= λ body. some (sent body)) >>= λ y. some (true, y))
    at none = (refl, refl)
    at (some body) = (refl, refl)

Unchanged-after {ℓ} :
    {W : Type ℓ} (x y : Exchange W) (a : Answer W) → Same x y → Unchanged y a → Unchanged x a
Unchanged-after x y none h g = (refl, refl)
Unchanged-after x y (some r) h g = (g.0 ∙ h.0, g.1 ∙ h.1)

-- The same of a `try` block.
abbrev SameTried {ℓ} : {W : Type ℓ} → Exchange W → Tried W → Type ℓ
SameTried x (returns y) = Same x y
SameTried x (throws y) = Same x y

caught-Unchanged {ℓ} :
    {W : Type ℓ} (world : World W) (message : Bytes) (code : ℕ) (x : Exchange W) (t : Tried W)
    → SameTried x t
    → Unchanged x (caught world message code t)
caught-Unchanged world message code x (returns y) h = h
caught-Unchanged world message code x (throws y) h =
    Unchanged-after x y (refuse world message code y) h (refuse-Unchanged world message code y)

try_refuse-SameTried {ℓ} :
    {W : Type ℓ} (world : World W) (message : Bytes) (code : ℕ) (x : Exchange W)
    → SameTried x (try_refuse world message code x)
unfolding send_error
try_refuse-SameTried {W = W} world message code x = at (world.dump (error_body code message))
  where
    sent : Bytes → Exchange W
    sent body = record x {
      response = error_response code message body x.response;
      on_write_complete = some shut_down;
    }

    at : (o : Option Bytes) → SameTried x (or_throw x (o >>= λ body. some (sent body)))
    at none = (refl, refl)
    at (some body) = (refl, refl)

module _ {ℓ κ} {W : Type ℓ} (world : World W) (x : Exchange W) {Q : Type κ} where
  -- A handler that asks for a session changes nothing without one.
  with_session-Unchanged :
      (f : ℤ → Exchange W → Answer W)
      → ((user : ℤ × Bytes)
          → validate_session world (get_header (bytes "X-Session-ID") x.request) x.db
            ≡ some (some user)
          → Unchanged x (f user.0 x) ⊎ Q)
      → Unchanged x (with_session world f x) ⊎ Q
  unfolding with_session
  with_session-Unchanged f h =
      at (validate_session world (get_header (bytes "X-Session-ID") x.request) x.db) refl
    where
      at :
          (o : Option (Option (ℤ × Bytes)))
          → validate_session world (get_header (bytes "X-Session-ID") x.request) x.db ≡ o
          → Unchanged x (elim o [
            | none ↦ none
            | some none ↦ refuse world (bytes "未登录或会话已过期") 401 x
            | some (some user) ↦ f user.0 x
          ])
            ⊎ Q
      at none e = inl (refl, refl)
      at (some none) e = inl (refuse-Unchanged world (bytes "未登录或会话已过期") 401 x)
      at (some (some user)) e = h user e

module _ {ℓ κ} {W : Type ℓ} (world : World W) (x : Exchange W) {Q : Type κ} (message : Bytes)
    (code : ℕ) where
  caught-guard : (t : Tried W) → SameTried x t ⊎ Q → Unchanged x (caught world message code t) ⊎ Q
  caught-guard t (inl h) = inl (caught-Unchanged world message code x t h)
  caught-guard t (inr q) = inr q

-- What a deletion needs: a session, and that the file it names is one of its user.
abbrev pub OwnsFile {ℓ} : {W : Type ℓ} → World W → Exchange W → Type 0
OwnsFile world x =
    (user : ℤ × Bytes) × (id : ℤ) × (validate_session world
        (get_header (bytes "X-Session-ID") x.request) x.db
      ≡ some (some user))
    × (get_owned_file_id_by_server_filename world (get_path_param (bytes "filename") x.request)
          user.0 x.db
        ≡ some (some id))

-- A deletion leaves the database, the disk and the names of the files as they are, unless the
-- request has a session and the database has the file that it names as one of its user.
pub handle_delete-Unchanged {ℓ} :
    {W : Type ℓ} (world : World W) (maps : Filenames.Json) (upload_dir : Bytes) (x : Exchange W)
    → Unchanged x (handle_delete world maps upload_dir x) ⊎ OwnsFile world x
unfolding handle_delete delete_file
handle_delete-Unchanged {W = W} world maps upload_dir x =
    with_session-Unchanged world x (delete_file world maps upload_dir) for_user
  where
    for_file :
        (user : ℤ × Bytes) (o : Option (Option ℤ))
        → validate_session world (get_header (bytes "X-Session-ID") x.request) x.db
          ≡ some (some user)
        → get_owned_file_id_by_server_filename world
            (get_path_param (bytes "filename") x.request)
            user.0
            x.db
          ≡ o
        → Unchanged x (elim o [
          | none ↦ none
          | some none ↦ refuse world (bytes "文件不存在或无权限删除") 404 x
          | some (some file_id) ↦
              delete_owned world maps upload_dir
                (get_path_param (bytes "filename") x.request)
                file_id
                x
        ])
          ⊎ OwnsFile world x
    for_file user none e f = inl (refl, refl)
    for_file user (some none) e f = inl (refuse-Unchanged world (bytes "文件不存在或无权限删除") 404 x)
    for_file user (some (some id)) e f = inr (user, id, e, f)

    for_user :
        (user : ℤ × Bytes)
        → validate_session world (get_header (bytes "X-Session-ID") x.request) x.db
          ≡ some (some user)
        → Unchanged x (delete_file world maps upload_dir user.0 x) ⊎ OwnsFile world x
    for_user user e = elim (Bool-cases (is_empty (get_path_param (bytes "filename") x.request))) [
      | inl unnamed ↦ inl (
          subst (Unchanged x) (sym (if_then _ _ unnamed))
            (refuse-Unchanged world (bytes "缺少文件名") 400 x))
      | inr named ↦
          subst (λ a. Unchanged x a ⊎ OwnsFile world x) (sym (if_else _ _ named))
            (for_file user
              (get_owned_file_id_by_server_filename world
                (get_path_param (bytes "filename") x.request) user.0 x.db)
              e refl)
    ]

-- What a new share needs: a session, and that the file of the body is one of its user.
abbrev pub SharesOwn {ℓ} : {W : Type ℓ} → World W → Exchange W → Type 0
SharesOwn world x =
    (user : ℤ × Bytes) × (j : Json) × (file_id : ℤ) × (validate_session world
        (get_header (bytes "X-Session-ID") x.request) x.db
      ≡ some (some user))
    × (world.parse x.request.body ≡ some j)
    × (int_at (bytes "fileId") j ≡ some file_id)
    × (is_file_owned_by world file_id user.0 x.db ≡ true)

-- The making of a share, or of a private file, leaves the database and all else outside as it is,
-- unless the request has a session and the database has the file of the body as one of its user.
pub handle_share_file-Unchanged {ℓ} :
    {W : Type ℓ} (world : World W) (x : Exchange W)
    → Unchanged x (handle_share_file world x) ⊎ SharesOwn world x
unfolding handle_share_file share_file share_as
handle_share_file-Unchanged {W = W} world x =
    with_session-Unchanged world x (share_file world) for_user
  where
    for_owner :
        (user : ℤ × Bytes) (j : Json) (file_id : ℤ) (share_type : Bytes)
        → validate_session world (get_header (bytes "X-Session-ID") x.request) x.db
          ≡ some (some user)
        → world.parse x.request.body ≡ some j
        → int_at (bytes "fileId") j ≡ some file_id
        → SameTried x (share_as world user.0 file_id share_type j x) ⊎ SharesOwn world x
    for_owner user j file_id share_type e p f =
        elim (Bool-cases (is_file_owned_by world file_id user.0 x.db)) [
          | inl owned ↦ inr (user, j, file_id, e, p, f, owned)
          | inr foreign ↦ inl (
              subst (SameTried x) (sym (if_then _ _ (ap not foreign)))
                (try_refuse-SameTried world (bytes "您没有权限分享此文件") 403 x))
        ]

    for_body :
        (user : ℤ × Bytes) (j : Json) (o : Option ℤ)
        → validate_session world (get_header (bytes "X-Session-ID") x.request) x.db
          ≡ some (some user)
        → world.parse x.request.body ≡ some j
        → int_at (bytes "fileId") j ≡ o
        → SameTried x (elim o [
          | none ↦ throws x
          | some file_id ↦ (elim (text_at (bytes "shareType") j) [
            | none ↦ throws x
            | some share_type ↦ share_as world user.0 file_id share_type j x
          ])
        ])
          ⊎ SharesOwn world x
    for_body user j none e p f = inl (refl, refl)
    for_body user j (some file_id) e p f = by_type (text_at (bytes "shareType") j)
      where
        by_type :
            (t : Option Bytes)
            → SameTried x (elim t [
              | none ↦ throws x
              | some share_type ↦ share_as world user.0 file_id share_type j x
            ])
              ⊎ SharesOwn world x
        by_type none = inl (refl, refl)
        by_type (some share_type) = for_owner user j file_id share_type e p f

    for_user :
        (user : ℤ × Bytes)
        → validate_session world (get_header (bytes "X-Session-ID") x.request) x.db
          ≡ some (some user)
        → Unchanged x (share_file world user.0 x) ⊎ SharesOwn world x
    for_user user e =
        caught-guard world x (bytes "请求参数错误") 400
          (elim (world.parse x.request.body) [
            | none ↦ throws x
            | some j ↦ with_parsed world user.0 j x
          ])
          (parsed (world.parse x.request.body) refl)
      where
        parsed :
            (o : Option Json)
            → world.parse x.request.body ≡ o
            → SameTried x (elim o [ none ↦ throws x | some j ↦ with_parsed world user.0 j x ])
              ⊎ SharesOwn world x
        parsed none p = inl (refl, refl)
        parsed (some j) p = for_body user j (int_at (bytes "fileId") j) e p refl

-- What a login needs: the name and the password of an account that the database has.
abbrev pub HasAccount {ℓ} : {W : Type ℓ} → World W → Exchange W → Type 0
HasAccount world x =
    (j : Json) × (a : Account) × (row : Row) × (world.parse x.request.body ≡ some j)
    × (login_of j ≡ some a)
    × (first_row
          (query world (login_sql world x.db a.username (pseudo_sha256 world a.password)) x.db)
        ≡ some row)

-- A login leaves the database, with the sessions in it, as it is, unless the body names an account
-- that the database has with the hash of that password.
pub handle_login-Unchanged {ℓ} :
    {W : Type ℓ} (world : World W) (what : Bytes) (x : Exchange W)
    → Unchanged x (handle_login world what x) ⊎ HasAccount world x
unfolding handle_login login
handle_login-Unchanged {W = W} world what x =
    caught-guard world x (bytes "登录失败: " ++ what) 500 (with_account world login_of (login world) x)
      (parsed (world.parse x.request.body) refl)
  where
    rows_for : Account → Option Row
    rows_for a =
        first_row
          (query world (login_sql world x.db a.username (pseudo_sha256 world a.password)) x.db)

    found :
        (j : Json) (a : Account) (o : Option Row)
        → world.parse x.request.body ≡ some j
        → login_of j ≡ some a
        → rows_for a ≡ o
        → SameTried x (elim o [
          | none ↦ try_refuse world (bytes "用户名或密码错误") 401 x
          | some row ↦ (elim (user_of_row row) [
            | none ↦ throws x
            | some user ↦ start_session world user.0 user.1 x
          ])
        ])
          ⊎ HasAccount world x
    found j a none p f r = inl (try_refuse-SameTried world (bytes "用户名或密码错误") 401 x)
    found j a (some row) p f r = inr (j, a, row, p, f, r)

    for_account :
        (j : Json) (a : Account)
        → world.parse x.request.body ≡ some j
        → login_of j ≡ some a
        → SameTried x (login world a x) ⊎ HasAccount world x
    for_account j a p f = elim (Bool-cases (is_empty a.username || is_empty a.password)) [
      | inl blank ↦ inl (
          subst (SameTried x) (sym (if_then _ _ blank))
            (try_refuse-SameTried world (bytes "用户名和密码不能为空") 400 x))
      | inr given ↦
          subst (λ t. SameTried x t ⊎ HasAccount world x) (sym (if_else _ _ given))
            (found j a (rows_for a) p f refl)
    ]

    by_account :
        (j : Json) (o : Option Account)
        → world.parse x.request.body ≡ some j
        → login_of j ≡ o
        → SameTried x (elim o [ none ↦ throws x | some a ↦ login world a x ]) ⊎ HasAccount world x
    by_account j none p f = inl (refl, refl)
    by_account j (some a) p f = for_account j a p f

    parsed :
        (o : Option Json)
        → world.parse x.request.body ≡ o
        → SameTried x (elim o [
          | none ↦ throws x
          | some j ↦ (elim (login_of j) [ none ↦ throws x | some a ↦ login world a x ])
        ])
          ⊎ HasAccount world x
    parsed none p = inl (refl, refl)
    parsed (some j) p = by_account j (login_of j) p refl
