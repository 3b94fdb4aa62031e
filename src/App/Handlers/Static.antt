-- ===== src/App/Handlers/Static.antt =====
-- application/src/StaticHandler.cpp. `macro` is the value of `__FILE__`, the path of that file. There is
-- always a connection.
pub mod Inside
use c_cloud_storage.Prelude.{
  ℕ, zero, suc, Bool, true, false, not, Option, none, some, List, [], ◌∷◌, ◌++◌, length, take, drop,
  if◌then◌else◌, Bytes, bytes, eqb, find_byte, find_text, starts_with,
}
use c_cloud_storage.Http.Request.{HttpRequest}
use c_cloud_storage.Http.Response.{HttpResponse, html_type, add_header, set_content_type, to_int}
use c_cloud_storage.Http.Response.Status
use c_cloud_storage.App.World.{World, find_last_byte}
use c_cloud_storage.App.Exchange.{Exchange, Answer, shut_down}

-- `substr(0, find_last_of("/"))`
unfoldable pub parent : Bytes → Bytes
unfolding find_last_byte
parent path = elim (find_last_byte b'/' path) [ none ↦ path | some at ↦ take at path ]

-- The `static` folder of `handleIndex` and `handleFavicon`, and that of `handleStaticAsset`.
unfoldable pub static_dir : Bytes → Bytes
unfolding parent find_last_byte
static_dir macro =
    (elim (find_last_byte b'/' (parent macro)) [ none ↦ macro | some at ↦ take at macro ])
    ++ bytes "/static"

unfoldable pub asset_dir : Bytes → Bytes
unfolding parent
asset_dir macro = parent macro ++ bytes "/static"

-- `path.find("/share/" == 0 || path == "/share.html")` looks for the byte 0 or 1, and any place but
-- the first counts as true, none too.
unfoldable pub is_share_page : Bytes → Bool
unfolding eqb find_byte
is_share_page path = elim (find_byte (if eqb path (bytes "/share.html") then 1 else 0) path) [
  | some zero ↦ false
  | _ ↦ true
]

unfoldable pub index_path : Bytes → Bytes → Bytes
unfolding eqb static_dir is_share_page
index_path macro path =
    static_dir macro
    ++ (if eqb path (bytes "/")
        then bytes "/index.html"
        else if is_share_page path
        then bytes "/share.html"
        else bytes "/index.html")

abbrev pub html : Bytes
html = bytes "text/html; charset=utf-8"

abbrev pub with_response {ℓ} : {W : Type ℓ} → (HttpResponse → HttpResponse) → Exchange W → Answer W
with_response f x =
    some (true, record x { response = f x.response; on_write_complete = some shut_down })

abbrev pub found_page : Bytes → HttpResponse → HttpResponse
found_page page r = record (set_content_type html r) {
  status_code = Status.ok;
  status_message = bytes "OK";
  body_type = some html_type;
  close_connection = true;
  body = page;
  content_length = to_int (length page);
}

abbrev pub missing_page : HttpResponse → HttpResponse
missing_page r = record (set_content_type html r) {
  status_code = Status.not_found;
  status_message = bytes "Not Found";
  body_type = some html_type;
  body = bytes "<h1>404 Not Found</h1>";
}

abbrev pub found_icon : Bytes → HttpResponse → HttpResponse
found_icon icon r = record (set_content_type (bytes "image/x-icon") r) {
  status_code = Status.ok;
  status_message = bytes "OK";
  body = icon;
  content_length = to_int (length icon);
  close_connection = true;
}

abbrev pub missing_icon : HttpResponse → HttpResponse
missing_icon r = record (set_content_type html r) {
  status_code = Status.not_found;
  status_message = bytes "Not Found";
  body = bytes "<h1>404 Not Found</h1>";
}

abbrev pub mime : List (Bytes × Bytes)
mime =
    (bytes ".js", bytes "application/javascript")
    ∷ ((bytes ".css", bytes "text/css")
        ∷ ((bytes ".png", bytes "image/png")
            ∷ ((bytes ".jpg", bytes "image/jpeg")
                ∷ ((bytes ".jpeg", bytes "image/jpeg")
                    ∷ ((bytes ".gif", bytes "image/gif")
                        ∷ ((bytes ".svg", bytes "image/svg+xml")
                            ∷ ((bytes ".ico", bytes "image/x-icon")
                                ∷ ((bytes ".html", html)
                                    ∷ ((bytes ".json", bytes "application/json")
                                        ∷ ((bytes ".txt", bytes "text/plain; charset=utf-8")
                                            ∷ ((bytes ".xml", bytes "text/xml; charset=utf-8")
                                                ∷ [])))))))))))

unfoldable pub mime_in : List (Bytes × Bytes) → Bytes → Bytes
unfolding eqb
mime_in [] ext = bytes "application/octet-stream"
mime_in ((e, type) ∷ rest) ext = let later = mime_in rest ext in if eqb e ext then type else later

unfoldable pub content_type_of : Bytes → Bytes
unfolding find_last_byte mime_in
content_type_of path =
    mime_in mime (elim (find_last_byte b'.' path) [ none ↦ [] | some at ↦ drop at path ])

unfoldable pub without_body : ℕ → Bytes → HttpResponse → HttpResponse
unfolding add_header
without_body code message r =
    record (add_header (bytes "Connection") (bytes "close")
      (record r { status_code = code; status_message = message })) { body = [] }

unfoldable pub found_asset : Bytes → Bytes → HttpResponse → HttpResponse
unfolding content_type_of set_content_type
found_asset path asset r = record (set_content_type (content_type_of path) r) {
  status_code = Status.ok;
  status_message = bytes "OK";
  content_length = to_int (length asset);
  close_connection = true;
  body = asset;
}

abbrev pub has_dots : Bytes → Bool
has_dots s = elim (find_text (bytes "..") s) [ none ↦ false | some _ ↦ true ]

module _ {ℓ} {W : Type ℓ} (world : World W) (macro : Bytes) where
  unfoldable pub handle_index : Exchange W → Answer W
  unfolding index_path set_content_type
  handle_index x = elim (world.read_file (index_path macro x.request.url) x.db.outside) [
    | none ↦ with_response missing_page x
    | some page ↦ with_response (found_page page) x
  ]

  unfoldable pub handle_favicon : Exchange W → Answer W
  unfolding static_dir set_content_type
  handle_favicon x =
      elim (world.read_file (static_dir macro ++ bytes "/favicon.ico") x.db.outside) [
        | none ↦ with_response missing_icon x
        | some icon ↦ with_response (found_icon icon) x
      ]

  unfoldable pub asset_path : Bytes → Bytes
  unfolding asset_dir
  asset_path rel = asset_dir macro ++ (b'/' ∷ rel)

  unfoldable pub send_asset : Bytes → Exchange W → Answer W
  unfolding without_body found_asset
  send_asset path x = elim (world.read_file path x.db.outside) [
    | none ↦ with_response (without_body Status.not_found (bytes "Not Found")) x
    | some asset ↦ with_response (found_asset path asset) x
  ]

  unfoldable pub handle_static_asset : Exchange W → Answer W
  unfolding starts_with find_text asset_path send_asset without_body
  handle_static_asset x =
      if not (starts_with (bytes "/static/") x.request.url)
      then with_response (without_body Status.not_found (bytes "Not Found")) x
      else if has_dots (drop 8 x.request.url)
      then with_response (without_body Status.forbidden (bytes "Forbidden")) x
      else send_asset (asset_path (drop 8 x.request.url)) x
