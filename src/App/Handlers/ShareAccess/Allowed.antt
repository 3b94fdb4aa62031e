-- ===== src/App/Handlers/ShareAccess/Allowed.antt =====
-- Who gets a file from `handleShareDownload`.
use c_cloud_storage.Prelude.{
  ◌≡◌, refl, ◌∷◌, ◌++◌, sym, ap, subst, ◌∙◌, length, true, false, ◌&&◌, ◌||◌, not, Option, none,
  some, ◌==◌, Bytes, bytes, eqb, eqb_iff, arith, Bool-cases, inl, inr, is_empty, if_then, if_else,
}
use c_cloud_storage.Tcp.Buffer.{◌>>=◌}
use c_cloud_storage.Http.Request.{get_header, get_path_param, get_query_value}
use c_cloud_storage.App.World.{World}
use c_cloud_storage.App.Database.Shares.{ShareRecord, get_by_code}
use c_cloud_storage.App.Database.Sessions.{validate_session}
use c_cloud_storage.App.Download.{FileDownContext}
use c_cloud_storage.App.Exchange.{Exchange}
use c_cloud_storage.App.Serve.Sent.{kept, file_sent, refuse_sends_none, serve_file-file_sent}
use c_cloud_storage.App.Handlers.Access.{Access, refused, granted, User, is_user_of, has_code}
use c_cloud_storage.App.Handlers.Access.Allowed.{
  Permits, by_public, by_extract_code, by_user, has_code-some, is_user_of-some, both, granted_file,
  some-eq,
}
use c_cloud_storage.App.Handlers.ShareAccess.{
  share_access, share_head, answer_share_access, download_by_share, handle_share_download,
}

access-Permits :
    (user : User) (filename extract_code server : Bytes) (share : ShareRecord)
    → granted_file (share_access user filename extract_code (some share)) ≡ some server
    → (share.server_filename ≡ filename) × Permits user extract_code share
unfolding share_access
access-Permits user filename extract_code server share h = (
  (eqb_iff _ _).0 same,
  elim (Bool-cases (eqb share.share_type (bytes "public"))) [
    | inl e ↦ by_public ((eqb_iff _ _).0 e)
    | inr not_public ↦ elim (Bool-cases (eqb share.share_type (bytes "protected"))) [
      | inl e ↦
          (let given : has_code extract_code share.extract_code ≡ true =
              ground (arith, h, same, not_public, e) in
            let code = has_code-some extract_code share.extract_code given in
            by_extract_code ((eqb_iff _ _).0 e) code.0 code.1)
      | inr not_protected ↦
          (let last : (eqb share.share_type (bytes "user") && is_user_of user share.shared_with_id)
                ≡ true =
              ground (arith, h, same, not_public, not_protected) in
            let tests = both _ _ last in
            let id = is_user_of-some user share.shared_with_id tests.1 in
            by_user id.0 ((eqb_iff _ _).0 tests.0) id.1 id.2)
    ]
  ],
)
  where
    same : eqb share.server_filename filename ≡ true
    same = ground (arith, h)

-- What it grants is the file of the share.
access-granted :
    (user : User) (filename extract_code server : Bytes) (share : ShareRecord)
    → granted_file (share_access user filename extract_code (some share)) ≡ some server
    → share.server_filename ≡ server
unfolding share_access
access-granted user filename extract_code server share h =
    some-eq _ _ (let e : some share.server_filename ≡ some server = ground (arith, h) in e)

answer-file_sent {ℓ} :
    {W : Type ℓ} (world : World W) (upload_dir : Bytes) (x : Exchange W) (access : Access)
    (c : FileDownContext)
    → kept x ≡ none
    → file_sent (answer_share_access world upload_dir x access) ≡ some c
    → (server : Bytes) × (granted_file access ≡ some server)
      × (world.read_file (upload_dir ++ (b'/' ∷ server)) x.db.outside ≡ some c.contents)
unfolding answer_share_access
answer-file_sent world upload_dir x (refused message code) c k h =
    refuse_sends_none world message code x c h
answer-file_sent world upload_dir x (granted server original) c k h = (
  server,
  refl,
  serve_file-file_sent world (share_head world) (bytes "Range Not Satisfiable")
      (upload_dir ++ (b'/' ∷ server)) original x c k h,
)

long_code : (code : Bytes) → (is_empty code || not (length code == 32)) ≡ false → length code ≡ 32
long_code code h = ground (arith, h)

-- What a download by a share needs, for the user of its session.
pub record SharePermits {ℓ} {W : Type ℓ} (world : World W) (x : Exchange W) (user : User)
    (share : ShareRecord) : Type ℓ where
  pub session :
      validate_session world (get_header (bytes "X-Session-ID") x.request) x.db ≡ some user
  pub found : get_by_code world (get_query_value (bytes "code") x.request) x.db ≡ some (some share)
  pub same_file : share.server_filename ≡ get_path_param (bytes "filename") x.request
  pub permits : Permits user (get_query_value (bytes "extract_code") x.request) share

module _ {ℓ} {W : Type ℓ} (world : World W) (upload_dir : Bytes) (x : Exchange W)
    (c : FileDownContext) (keeps : kept x ≡ none) where
  abbrev FoundFor : User → Type ℓ
  FoundFor user =
      (share : ShareRecord) × SharePermits world x user share
      × (world.read_file (upload_dir ++ (b'/' ∷ share.server_filename)) x.db.outside
          ≡ some c.contents)

  with_share :
      (user : User) (o : Option (Option ShareRecord))
      → validate_session world (get_header (bytes "X-Session-ID") x.request) x.db ≡ some user
      → get_by_code world (get_query_value (bytes "code") x.request) x.db ≡ o
      → file_sent (
          o >>= λ share. answer_share_access world upload_dir x (
            share_access user
              (get_path_param (bytes "filename") x.request)
              (get_query_value (bytes "extract_code") x.request)
              share))
        ≡ some c
      → FoundFor user
  unfolding share_access answer_share_access
  with_share user none e f g = absurd (ground arith)
  with_share user (some none) e f g = refuse_sends_none world (bytes "分享链接已失效或不存在") 404 x c g
  with_share user (some (some share)) e f g =
      let sent =
        answer-file_sent world upload_dir x (share_access user _ _ (some share)) c keeps g in
      let allowed = access-Permits user _ _ sent.0 share sent.1 in
      (
        share,
        record { session = e; found = f; same_file = allowed.0; permits = allowed.1 },
        subst (λ s. world.read_file (upload_dir ++ (b'/' ∷ s)) x.db.outside ≡ some c.contents)
            (sym (access-granted user _ _ sent.0 share sent.1)) sent.2,
      )

  with_user :
      (o : Option User)
      → validate_session world (get_header (bytes "X-Session-ID") x.request) x.db ≡ o
      → file_sent (
          o >>= λ user.
          get_by_code world (get_query_value (bytes "code") x.request) x.db >>= λ share.
          answer_share_access world upload_dir x (
            share_access user
              (get_path_param (bytes "filename") x.request)
              (get_query_value (bytes "extract_code") x.request)
              share))
        ≡ some c
      → (user : User) × FoundFor user
  with_user none e g = absurd (ground arith)
  with_user (some user) e g = (user, with_share user _ e refl g)

-- On a connection that keeps no context yet, a download by a share sends the file of a share that
-- the database has for the code of the request: the share is of the file that the request names, it
-- is public, or protected by the extract code that the request gives, or made for the user of its
-- session, and the code has 32 bytes.
pub handle_share_download-SharePermits {ℓ} :
    {W : Type ℓ} (world : World W) (upload_dir : Bytes) (x : Exchange W) (c : FileDownContext)
    → kept x ≡ none
    → file_sent (handle_share_download world upload_dir x) ≡ some c
    → (length (get_query_value (bytes "code") x.request) ≡ 32)
      × (user : User) × (share : ShareRecord) × SharePermits world x user share
      × (world.read_file (upload_dir ++ (b'/' ∷ share.server_filename)) x.db.outside
          ≡ some c.contents)
unfolding handle_share_download download_by_share
handle_share_download-SharePermits world upload_dir x c k h =
    elim (Bool-cases (is_empty (get_path_param (bytes "filename") x.request))) [
      | inl unnamed ↦
          refuse_sends_none world (bytes "Missing filename") 400 x c
            (ap file_sent (sym (if_then _ _ unnamed)) ∙ h)
      | inr named ↦
          elim (Bool-cases (
            is_empty (get_query_value (bytes "code") x.request)
            || not (length (get_query_value (bytes "code") x.request) == 32))) [
              | inl bad ↦
                  refuse_sends_none world (bytes "无效的分享码格式") 400 x c
                    (ap file_sent (sym (if_else _ _ named ∙ if_then _ _ bad)) ∙ h)
              | inr good ↦
                  (let found =
                      with_user world upload_dir x c k
                        (validate_session world (get_header (bytes "X-Session-ID") x.request) x.db)
                        refl (ap file_sent (sym (if_else _ _ named ∙ if_else _ _ good)) ∙ h) in
                    (
                      long_code (get_query_value (bytes "code") x.request) good,
                      found.0,
                      found.1.0,
                      found.1.1,
                      found.1.2,
                    ))
            ]
    ]
