-- ===== src/App/Handlers/Examples.antt =====
-- The theorems on uploads, downloads, assets and codes, at concrete inputs.
use c_cloud_storage.Prelude.{
  ℕ, ◌≡◌, refl, true, false, none, some, [], ◌∷◌, ◌++◌, if◌then◌else◌, Bytes, bytes, eqb, arith,
  find_text,
}
use c_cloud_storage.Prelude.{starts_with}
use c_cloud_storage.Prelude.Number.{pos}
use c_cloud_storage.Http.Request.{HttpRequest, get, post, get_header}
use c_cloud_storage.App.Upload
use c_cloud_storage.App.Upload.{
  FileUploadContext, set_boundary, set_state, expect_boundary, complete,
}
use c_cloud_storage.App.Exchange.{Exchange, Link, refuse, uploading}
use c_cloud_storage.App.Database.Sessions.{validate_session}
use c_cloud_storage.App.Range.{no_range}
use c_cloud_storage.App.Routes.{Regex, dispatch}
use c_cloud_storage.App.Serve.{attach_download, sent_in_all}
use c_cloud_storage.App.Serve.Whole.{attach_download-sent_in_all}
use c_cloud_storage.App.Handlers.Upload.{first_piece, next_piece, with_upload}
use c_cloud_storage.App.Handlers.Upload.Pieces.{
  Received, next_pieces, next_pieces-first_piece, first_piece_whole,
}
use c_cloud_storage.App.Handlers.Sessions.{http_callback-between_piece}
use c_cloud_storage.App.Handlers.Static.{handle_static_asset}
use c_cloud_storage.App.Handlers.Static.Inside.{IsAsset, handle_static_asset-IsAsset}
use c_cloud_storage.App.Handlers.Table.{Setup, register_routes, http_callback, with_request}
use c_cloud_storage.App.Handlers.Share.{Sharing}
use c_cloud_storage.App.World.{World, Json, object, member, number, text, no_more}
use c_cloud_storage.App.World.{random_string, letters_and_digits}
use c_cloud_storage.App.Handlers.Tests.{rows_for, small, exchange, ask, own_file, no_names}

abbrev line_end : Bytes
line_end = 13 ∷ (10 ∷ [])

abbrev fresh : FileUploadContext
fresh = set_boundary (bytes "--B") (Upload.create true (bytes "u/f") (bytes "a.txt"))

-- The first piece, one between, and the last.
abbrev first_body : Bytes
first_body = bytes "--B" ++ (line_end ++ (bytes "T: x" ++ (line_end ++ (line_end ++ bytes "one "))))

abbrev last_body : Bytes
last_body = bytes "three" ++ (line_end ++ bytes "--B--")

next_pieces-first_piece_example :
    (d : FileUploadContext) × (first_piece first_body fresh ≡ some d)
    × ((next_piece last_body (next_pieces (bytes "two " ∷ []) d)).state ≡ complete)
    × ((next_piece last_body (next_pieces (bytes "two " ∷ []) d)).file
        ≡ some (bytes "one two three" ++ line_end))
unfolding find_text
next_pieces-first_piece_example =
    next_pieces-first_piece 9 7 first_body last_body (bytes "two " ∷ []) fresh refl refl refl
      (refl, refl, tt) refl

first_piece_whole_example :
    (d : FileUploadContext) × (first_piece (first_body ++ last_body) fresh ≡ some d)
    × (d.state ≡ complete)
    × (d.file ≡ some (bytes "one three" ++ line_end))
unfolding find_text
first_piece_whole_example =
    first_piece_whole 9 24 (first_body ++ last_body) fresh [] refl refl refl (omega arith)

abbrev kept_nothing : Link
kept_nothing = record { completed = true; attachment = none }

attach_download-sent_in_all_example :
    (y : Exchange ℕ) × (attach_download small no_range 5
        (bytes "uploads/f")
        (bytes "a.txt")
        own_file
      ≡ some (true, y))
    × (sent_in_all 6 y ≡ some (bytes "hello"))
attach_download-sent_in_all_example =
    attach_download-sent_in_all small no_range (bytes "uploads/f") (bytes "a.txt") (bytes "hello") 6
      own_file kept_nothing refl refl refl refl (omega arith) (omega arith) (omega arith)

abbrev asset : Exchange ℕ
asset = exchange (record (ask get) { url = bytes "/static/player.js" })

handle_static_asset-IsAsset_example :
    IsAsset small (bytes "/r/src/StaticHandler.cpp") asset (bytes "hello")
unfolding handle_static_asset
handle_static_asset-IsAsset_example =
    handle_static_asset-IsAsset small (bytes "/r/src/StaticHandler.cpp") asset (bytes "hello") refl

-- A request of the owner to share the file with everybody, and one for the share.
abbrev sharing_body : Json
sharing_body = object (
    member (bytes "fileId") (number (pos 1))
      (member (bytes "shareType") (text (bytes "public")) no_more))

abbrev drawn : Bytes
drawn = (random_string small 32 letters_and_digits 0).0

abbrev sharing_world : World ℕ
sharing_world = record small {
  mysql_select = λ sql w.
      if starts_with (bytes "SELECT 1 FROM files") sql
      then some ((some (bytes "1") ∷ []) ∷ [])
      else some (rows_for sql);
  parse = λ s. some sharing_body;
  regex_group = λ p s. some drawn;
}

abbrev public_share : Sharing
public_share = record { file_id = pos 1; share_type = bytes "public"; hours = none }

-- An upload whose first piece has come, on a route that matches its path only.
abbrev only_upload : Regex
only_upload p t = if eqb p (bytes "^/upload$") then some (t ∷ []) else none

abbrev setup : Setup
setup = record { macro = bytes "m"; upload_dir = bytes "uploads"; maps = no_names; what = [] }

abbrev fresh_part : FileUploadContext
fresh_part = set_state expect_boundary fresh

abbrev begun_link : Link
begun_link = record { completed = false; attachment = some (uploading fresh_part) }

abbrev begun : Exchange ℕ
begun = record (exchange (record (ask post) { url = bytes "/upload"; body = bytes "one" })) {
  link = some begun_link;
}

abbrev only_request : HttpRequest
only_request = record begun.request { path_params = [] }

http_callback-between_piece_example :
    (d : FileUploadContext) × Received expect_boundary (bytes "one") fresh_part d
    × (http_callback small setup only_upload begun
        ≡ refuse small
            (bytes "Not Found")
            404
            (with_upload small begun_link d (with_request small setup begun only_request)))
unfolding dispatch validate_session eqb register_routes get_header starts_with find_text
http_callback-between_piece_example =
    http_callback-between_piece small setup only_upload begun only_request (pos 7, bytes "ann")
      begun_link fresh_part [] refl refl refl refl refl refl refl refl refl
