-- ===== src/App/Handlers/Codes.antt =====
-- The codes of shares, which `handleShareFile` of application/src makes and `handleShareAccess` reads.
use c_cloud_storage.Prelude.{ℕ, ◌≤◌, ◌≡◌, true, false, Bytes, bytes}
use c_cloud_storage.App.World.{World, random_string, letters_and_digits}
use c_cloud_storage.App.Exchange.{Exchange}
use c_cloud_storage.App.World.{Json}
use c_cloud_storage.Prelude.{Option, some, eqb}
use c_cloud_storage.Prelude.Number.{ℤ}
use c_cloud_storage.Http.Request.{get_header}
use c_cloud_storage.App.Database.Sessions.{validate_session}
use c_cloud_storage.App.Database.Shares.{is_file_owned_by}
use c_cloud_storage.App.Handlers.Fields.{Tried, int_at, text_at}
use c_cloud_storage.App.Handlers.Share.{
  Sharing, hours_of, shared_with_of, extract_code_for, already_shared, insert_share, with_outside,
}

-- What `uniform_int_distribution` promises: a number up to its bound.
abbrev pub DrawsUpTo {ℓ} : {W : Type ℓ} → World W → Type ℓ
DrawsUpTo {W = W} world = (n : ℕ) (w : W) → (world.draw n w).0 ≤ n

-- What goes before the insertion of a share in `handleShareFile`, for the members of its body.
pub record SharesFile {ℓ} {W : Type ℓ} (world : World W) (x : Exchange W) (user : ℤ × Bytes)
    (j : Json) (share : Sharing) (with_user : Option ℤ) (extract_code : Option Bytes) (w : W)
    : Type ℓ where
  pub session :
      validate_session world (get_header (bytes "X-Session-ID") x.request) x.db ≡ some (some user)
  pub body : world.parse x.request.body ≡ some j
  pub file_id : int_at (bytes "fileId") j ≡ some share.file_id
  pub share_type : text_at (bytes "shareType") j ≡ some share.share_type
  pub hours : hours_of j ≡ some share.hours
  pub owned : is_file_owned_by world share.file_id user.0 x.db ≡ true
  pub not_private : eqb share.share_type (bytes "private") ≡ false
  pub recipient : shared_with_of share.share_type j ≡ some with_user
  pub codes :
      extract_code_for world share.share_type
        (random_string world 32 letters_and_digits x.db.outside).1
      ≡ (extract_code, w)
  pub is_new : already_shared world share.file_id with_user (record x.db { outside = w }) ≡ false

-- The steps of `handleShareFile` on such a request, from the inside to the outside.
module _ {ℓ} {W : Type ℓ} (world : World W) (x : Exchange W) (user : ℤ × Bytes) (j : Json)
    (share : Sharing) (with_user : Option ℤ) (extract_code : Option Bytes) (w : W)
    (h : SharesFile world x user j share with_user extract_code w) where
  abbrev Inserted : Tried W
  Inserted =
      insert_share world user.0 share (random_string world 32 letters_and_digits x.db.outside).0
        with_user extract_code (with_outside world w x)
