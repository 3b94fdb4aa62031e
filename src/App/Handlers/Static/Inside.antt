-- ===== src/App/Handlers/Static/Inside.antt =====
-- The files that `handleStaticAsset` hands out.
use c_cloud_storage.Prelude.{
  ◌≡◌, refl, ap, ◌∙◌, sym, true, false, not, Option, none, some, drop, Bytes, bytes, starts_with,
  find_text, arith, Bool-cases, inl, inr, if◌then◌else◌, if_then, if_else, ◌==◌,
}
use c_cloud_storage.Http.Response.Status
use c_cloud_storage.App.World.{World}
use c_cloud_storage.App.Exchange.{Exchange, Answer}
use c_cloud_storage.App.Handlers.Static.{
  asset_path, has_dots, send_asset, found_asset, without_body, with_response, handle_static_asset,
}

-- What an answer 200 needs: the path is below /static/, and the rest of it, which has no two dots
-- behind each other, names a file in the folder, whose contents are the body.
pub record IsAsset {ℓ} {W : Type ℓ} (world : World W) (macro : Bytes) (x : Exchange W)
    (body : Bytes) : Type ℓ where
  pub below : starts_with (bytes "/static/") x.request.url ≡ true
  pub no_dots : find_text (bytes "..") (drop 8 x.request.url) ≡ none
  pub contents :
      world.read_file (asset_path world macro (drop 8 x.request.url)) x.db.outside ≡ some body

abbrev pub body_if_ok {ℓ} : {W : Type ℓ} → Answer W → Option Bytes
body_if_ok none = none
body_if_ok (some (b, y)) = if y.response.status_code == 200 then some y.response.body else none

dots_found : (s : Bytes) → has_dots s ≡ false → find_text (bytes "..") s ≡ none
dots_found s h = ground (arith, h)

-- An asset is handed out only from below the folder of the assets: the path of the request begins
-- with /static/, what follows has no two dots behind each other, and the body is what the file of
-- that name in the folder holds.
pub handle_static_asset-IsAsset {ℓ} :
    {W : Type ℓ} (world : World W) (macro : Bytes) (x : Exchange W) (body : Bytes)
    → body_if_ok (handle_static_asset world macro x) ≡ some body
    → IsAsset world macro x body
unfolding handle_static_asset send_asset without_body found_asset
handle_static_asset-IsAsset world macro x body h =
    elim (Bool-cases (starts_with (bytes "/static/") x.request.url)) [
      | inr other ↦ absurd (
          let no : none ≡ some body = ap body_if_ok (sym (if_then _ _ (ap not other))) ∙ h in
          ground (arith, no))
      | inl below ↦ elim (Bool-cases (has_dots (drop 8 x.request.url))) [
        | inl dots ↦ absurd (
            let no : none ≡ some body =
              ap body_if_ok (sym (if_else _ _ (ap not below) ∙ if_then _ _ dots)) ∙ h in
            ground (arith, no))
        | inr no_dots ↦ record {
          below = below;
          no_dots = dots_found (drop 8 x.request.url) no_dots;
          contents =
              from_file
                (world.read_file (asset_path world macro (drop 8 x.request.url)) x.db.outside) refl
                (ap body_if_ok (sym (if_else _ _ (ap not below) ∙ if_else _ _ no_dots)) ∙ h);
        }
      ]
    ]
  where
    path : Bytes
    path = asset_path world macro (drop 8 x.request.url)

    from_file :
        (o : Option Bytes)
        → world.read_file path x.db.outside ≡ o
        → body_if_ok (elim o [
          | none ↦ with_response (without_body Status.not_found (bytes "Not Found")) x
          | some asset ↦ with_response (found_asset path asset) x
        ])
          ≡ some body
        → world.read_file path x.db.outside ≡ some body
    from_file none e g = absurd (ground arith)
    from_file (some asset) e g = e ∙ g
