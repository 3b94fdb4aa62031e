-- ===== src/App/Handlers/Access/Allowed.antt =====
-- Who gets a file from `handleDownload`.
use c_cloud_storage.Prelude.{
  ◌≡◌, ◌≢◌, refl, sym, ap, ◌∙◌, subst, Bool, true, ◌&&◌, not, Option, none, some, [], Bytes, bytes,
  eqb, eqb_iff, arith, Bool-cases, inl, inr, ◌⊎◌, is_empty, if_then, if_else, ◌∷◌, ◌++◌,
}
use c_cloud_storage.Prelude.Number.{ℤ}
use c_cloud_storage.Tcp.Buffer.{◌>>=◌}
use c_cloud_storage.Http.Request.{HttpRequest, get_path_param, get_query_value}
use c_cloud_storage.App.World.{World}
use c_cloud_storage.App.Database.{Db}
use c_cloud_storage.App.Database.Files.{FileBasic, get_by_server_filename}
use c_cloud_storage.App.Database.Shares.{ShareRecord, get_by_code}
use c_cloud_storage.App.Database.Sessions.{validate_session}
use c_cloud_storage.App.Download.{FileDownContext}
use c_cloud_storage.App.Exchange.{Exchange}
use c_cloud_storage.App.Serve.Sent.{kept, file_sent, refuse_sends_none, serve_file-file_sent}
use c_cloud_storage.App.Handlers.Access.{
  Access, refused, granted, User, is_user, is_user_of, has_code, share_permits, by_share, by_owner,
  session_id_of, check_access, answer_access, handle_download, download_head,
}

-- Why a share lets a user have its file, who need not own it.
pub data Permits (user : User) (extract_code : Bytes) (share : ShareRecord) : Type 0 where
  by_public : share.share_type ≡ bytes "public" → Permits user extract_code share
  by_extract_code :
      share.share_type ≡ bytes "protected"
      → extract_code ≢ []
      → share.extract_code ≡ some extract_code
      → Permits user extract_code share
  by_user :
      (id : ℤ)
      → share.share_type ≡ bytes "user"
      → share.shared_with_id ≡ some id
      → is_user user id ≡ true
      → Permits user extract_code share

-- Why a request gets the file of this name in the folder of the uploads.
pub data MayFetch {ℓ} {W : Type ℓ} (world : World W) (user : User) (req : HttpRequest) (db : Db W)
    (server : Bytes) : Type 0 where
  own :
      (file : FileBasic)
      → get_by_server_filename world (get_path_param (bytes "filename") req) db ≡ some (some file)
      → is_user user file.owner_id ≡ true
      → file.server_filename ≡ server
      → MayFetch world user req db server
  shared :
      (share : ShareRecord)
      → get_by_code world (get_query_value (bytes "code") req) db ≡ some (some share)
      → share.server_filename ≡ get_path_param (bytes "filename") req
      → (is_user user share.file_owner_id ≡ true)
        ⊎ Permits user (get_query_value (bytes "extract_code") req) share
      → share.server_filename ≡ server
      → MayFetch world user req db server

pub has_code-some :
    (given : Bytes) (code : Option Bytes)
    → has_code given code ≡ true
    → (given ≢ []) × (code ≡ some given)
has_code-some [] none h = absurd (ground arith)
has_code-some (c ∷ given) none h = absurd (ground arith)
has_code-some [] (some code) h = absurd (ground arith)
has_code-some (c ∷ given) (some code) h =
    (λ e. ground arith, ap some (sym ((eqb_iff (c ∷ given) code).0 h)))

pub is_user_of-some :
    (user : User) (id : Option ℤ)
    → is_user_of user id ≡ true
    → (n : ℤ) × (id ≡ some n) × (is_user user n ≡ true)
is_user_of-some user none h = absurd (ground arith)
is_user_of-some user (some n) h = (n, refl, h)

pub both : (a b : Bool) → (a && b) ≡ true → (a ≡ true) × (b ≡ true)
both a b h = ground arith

share_permits-Permits :
    (user : User) (extract_code : Bytes) (share : ShareRecord)
    → share_permits user extract_code share ≡ true
    → (is_user user share.file_owner_id ≡ true) ⊎ Permits user extract_code share
unfolding share_permits
share_permits-Permits user extract_code share h =
    elim (Bool-cases (is_user user share.file_owner_id)) [
      | inl owner ↦ inl owner
      | inr not_owner ↦ elim (Bool-cases (eqb share.share_type (bytes "public"))) [
        | inl e ↦ inr (by_public ((eqb_iff _ _).0 e))
        | inr not_public ↦
            elim (Bool-cases (
              eqb share.share_type (bytes "protected")
              && has_code extract_code share.extract_code)) [
                | inl e ↦
                    (let tests = both _ _ e in
                      let code = has_code-some extract_code share.extract_code tests.1 in
                      inr (by_extract_code ((eqb_iff _ _).0 tests.0) code.0 code.1))
                | inr no_code ↦
                    (let last : (eqb share.share_type (bytes "user")
                            && is_user_of user share.shared_with_id)
                          ≡ true =
                        sym (if_else _ _ not_owner ∙ if_else _ _ not_public ∙ if_else _ _ no_code)
                        ∙ h in
                      let tests = both _ _ last in
                      let id = is_user_of-some user share.shared_with_id tests.1 in
                      inr (by_user id.0 ((eqb_iff _ _).0 tests.0) id.1 id.2))
              ]
      ]
    ]

-- The file that the checks grant, by its name in the folder of the uploads.
abbrev pub granted_file : Access → Option Bytes
granted_file (refused message code) = none
granted_file (granted server original) = some server

abbrev granted_by : Option Access → Option Bytes
granted_by none = none
granted_by (some access) = granted_file access

pub some-eq {ℓ} : {A : Type ℓ} (a b : A) → some a ≡ some b → a ≡ b
some-eq a b h = ap (λ o. elim o [ none ↦ a | some c ↦ c ]) h

-- A share that grants is there, and is one of the file.
by_share-granted :
    (user : User) (filename extract_code server : Bytes) (share : ShareRecord)
    → granted_file (by_share user filename extract_code (some share)) ≡ some server
    → (share.server_filename ≡ filename)
      × (share_permits user extract_code share ≡ true)
      × (share.server_filename ≡ server)
unfolding by_share
by_share-granted user filename extract_code server share h = (
  (eqb_iff _ _).0 same,
  permits,
  some-eq _ _
      (let e : some share.server_filename ≡ some server = ground (arith, h, same, permits) in e),
)
  where
    same : eqb share.server_filename filename ≡ true
    same = ground (arith, h)

    permits : share_permits user extract_code share ≡ true
    permits = ground (arith, h)

by_owner-granted :
    (user : User) (file : FileBasic) (server : Bytes)
    → granted_file (by_owner user (some file)) ≡ some server
    → (is_user user file.owner_id ≡ true) × (file.server_filename ≡ server)
unfolding by_owner
by_owner-granted user file server h = (
  owner,
  some-eq _ _ (let e : some file.server_filename ≡ some server = ground (arith, h, owner) in e),
)
  where
    owner : is_user user file.owner_id ≡ true
    owner = ground (arith, h)

granted-bind {ℓ} :
    {A : Type ℓ} (o : Option A) (f : A → Access) (server : Bytes)
    → granted_by (o >>= λ a. some (f a)) ≡ some server
    → (a : A) × (o ≡ some a) × (granted_file (f a) ≡ some server)
granted-bind none f server h = absurd (ground arith)
granted-bind (some a) f server h = (a, refl, h)

module _ {ℓ} {W : Type ℓ} (world : World W) (user : User) (req : HttpRequest) (db : Db W)
    (server : Bytes) where
  share-MayFetch :
      (o : Option ShareRecord)
      → get_by_code world (get_query_value (bytes "code") req) db ≡ some o
      → granted_file (
          by_share user
            (get_path_param (bytes "filename") req)
            (get_query_value (bytes "extract_code") req)
            o)
        ≡ some server
      → MayFetch world user req db server
  unfolding by_share
  share-MayFetch none e h = absurd (ground arith)
  share-MayFetch (some share) e h =
      let tests = by_share-granted user _ _ server share h in
      shared share e tests.0 (share_permits-Permits user _ share tests.1) tests.2

  own-MayFetch :
      (o : Option FileBasic)
      → get_by_server_filename world (get_path_param (bytes "filename") req) db ≡ some o
      → granted_file (by_owner user o) ≡ some server
      → MayFetch world user req db server
  unfolding by_owner
  own-MayFetch none e h = absurd (ground arith)
  own-MayFetch (some file) e h =
      let tests = by_owner-granted user file server h in own file e tests.0 tests.1

  without_share :
      (u : User)
      → user ≡ u
      → granted_by (elim u [
        | none ↦ some (refused (bytes "请先登录") 401)
        | some v ↦
            get_by_server_filename world (get_path_param (bytes "filename") req) db >>= λ file.
            some (by_owner (some v) file)
      ])
        ≡ some server
      → MayFetch world user req db server
  without_share none e h = absurd (ground arith)
  without_share (some v) e h =
      let file =
        granted-bind (get_by_server_filename world (get_path_param (bytes "filename") req) db)
          (by_owner (some v)) server h in
      own-MayFetch file.0 file.1
        (subst (λ u. granted_file (by_owner u file.0) ≡ some server) (sym e) file.2)

  check-MayFetch :
      granted_by (check_access world user req db) ≡ some server → MayFetch world user req db server
  unfolding check_access
  check-MayFetch h = elim (Bool-cases (is_empty (get_path_param (bytes "filename") req))) [
    | inl unnamed ↦ absurd (ground (arith, h, unnamed))
    | inr named ↦ elim (Bool-cases (is_empty (get_query_value (bytes "code") req))) [
      | inl no_code ↦
          without_share user refl
            (ap granted_by (sym (if_else _ _ named ∙ if_else _ _ (ap not no_code))) ∙ h)
      | inr with_code ↦
          (let share =
              granted-bind (get_by_code world (get_query_value (bytes "code") req) db)
                (by_share user (get_path_param (bytes "filename") req)
                  (get_query_value (bytes "extract_code") req))
                server
                (ap granted_by (sym (if_else _ _ named ∙ if_then _ _ (ap not with_code))) ∙ h) in
            share-MayFetch share.0 share.1 share.2)
    ]
  ]

answer-file_sent {ℓ} :
    {W : Type ℓ} (world : World W) (upload_dir : Bytes) (x : Exchange W) (access : Access)
    (c : FileDownContext)
    → kept x ≡ none
    → file_sent (answer_access world upload_dir x access) ≡ some c
    → (server : Bytes) × (granted_file access ≡ some server)
      × (world.read_file (upload_dir ++ (b'/' ∷ server)) x.db.outside ≡ some c.contents)
unfolding answer_access
answer-file_sent world upload_dir x (refused message code) c k h =
    refuse_sends_none world message code x c h
answer-file_sent world upload_dir x (granted server original) c k h = (
  server,
  refl,
  serve_file-file_sent world (download_head world) (bytes "无法满足的 Range 请求")
      (upload_dir ++ (b'/' ∷ server)) original x c k h,
)

-- On a connection that keeps no context yet, the file that a download sends is the one of a name in
-- the folder of the uploads that the request may have: the session of the request is that of the owner
-- of the file that the request names, and the database has this name for it, or the database has,
-- for the code that the request names, a share of the file of this name, which is the one the
-- request asks for, and the file belongs to the user of the session, or the share is public, or
-- protected by the code that the request gives, or made for that user.
pub handle_download-MayFetch {ℓ} :
    {W : Type ℓ} (world : World W) (upload_dir : Bytes) (x : Exchange W) (c : FileDownContext)
    → kept x ≡ none
    → file_sent (handle_download world upload_dir x) ≡ some c
    → (user : User) × (server : Bytes) × (validate_session world (session_id_of x.request) x.db
        ≡ some user)
      × MayFetch world user x.request x.db server
      × (world.read_file (upload_dir ++ (b'/' ∷ server)) x.db.outside ≡ some c.contents)
unfolding handle_download
handle_download-MayFetch world upload_dir x c k h =
    with_user (validate_session world (session_id_of x.request) x.db) refl h
  where
    with_access :
        (user : User) (o : Option Access)
        → check_access world user x.request x.db ≡ o
        → file_sent (o >>= answer_access world upload_dir x) ≡ some c
        → (server : Bytes) × MayFetch world user x.request x.db server
          × (world.read_file (upload_dir ++ (b'/' ∷ server)) x.db.outside ≡ some c.contents)
    with_access user none e g = absurd (ground arith)
    with_access user (some access) e g =
        let sent = answer-file_sent world upload_dir x access c k g in
        (sent.0, check-MayFetch world user x.request x.db sent.0 (ap granted_by e ∙ sent.1), sent.2)

    with_user :
        (o : Option User)
        → validate_session world (session_id_of x.request) x.db ≡ o
        → file_sent (
            o >>= λ user.
            check_access world user x.request x.db >>= answer_access world upload_dir x)
          ≡ some c
        → (user : User) × (server : Bytes) × (validate_session world (session_id_of x.request) x.db
            ≡ some user)
          × MayFetch world user x.request x.db server
          × (world.read_file (upload_dir ++ (b'/' ∷ server)) x.db.outside ≡ some c.contents)
    with_user none e g = absurd (ground arith)
    with_user (some user) e g =
        let sent = with_access user (check_access world user x.request x.db) refl g in
        (user, sent.0, e, sent.1, sent.2)
