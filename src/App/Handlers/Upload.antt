-- ===== src/App/Handlers/Upload.antt =====
-- application/src/FileHandler.cpp: `handleUpload`. The body of the request is what has come since
-- the last call.
pub mod Pieces
use c_cloud_storage.Prelude.{
  ℕ, zero, suc, ◌+◌, ◌-◌, Bool, true, false, ◌||◌, Option, none, some, [], ◌∷◌, ◌++◌, length, take,
  drop, ltb, ◌==◌, if◌then◌else◌, Bytes, bytes, find_text, is_empty,
}
use c_cloud_storage.Prelude.Number.{ℤ, pos}
use c_cloud_storage.Tcp.Buffer.{◌>>=◌}
use c_cloud_storage.Http.Request.{HttpRequest, get_header, set_body}
use c_cloud_storage.App.World.{
  World, Json, number, text, object, no_more, member, unique_filename, url_decode_from,
  find_last_byte, file_type_by_ext,
}
use c_cloud_storage.App.Database.{Db}
use c_cloud_storage.App.Database.Files.{create_file}
use c_cloud_storage.App.Upload
use c_cloud_storage.App.Upload.{
  FileUploadContext, State, expect_headers, expect_content, expect_boundary, complete, write_data,
  set_boundary, set_state,
}
use c_cloud_storage.App.Exchange.{
  Exchange, Answer, Link, Attachment, uploading, downloading, with_session, refuse, reply,
  send_error, send_json,
}
use c_cloud_storage.App.Serve.{is_some}

abbrev pub blank_line : Bytes
blank_line = 13 ∷ (10 ∷ (13 ∷ (10 ∷ [])))

abbrev pub end_of_parts : Bytes → Bytes
end_of_parts boundary = boundary ++ bytes "--"

-- The content between two offsets into the body; the program writes `end - start` bytes of
-- unsigned numbers, which is far beyond the body if the end comes first: `none`.
unfoldable pub write_between : ℕ → ℕ → Bytes → FileUploadContext → Option FileUploadContext
unfolding write_data
write_between start stop body c =
    if stop == 0
    then some c
    else if ltb stop start
    then none
    else some (write_data (take (stop - start) (drop start body)) c)

-- The body of the first call.
unfoldable pub first_piece : Bytes → FileUploadContext → Option FileUploadContext
unfolding find_text write_between write_data
first_piece body c = elim (find_text blank_line body) [
  | none ↦ some c
  | some at ↦ (elim (find_text (end_of_parts c.boundary) body) [
    | some stop ↦ (do d ← write_between (at + 4) stop body c; some (set_state complete d))
    | none ↦ some (
        set_state expect_boundary
          (if ltb (at + 4) (length body) then write_data (drop (at + 4) body) c else c))
  ])
]

-- `if (pos > 0) writeData(body.data(), pos)`
abbrev pub write_front : ℕ → Bytes → FileUploadContext → FileUploadContext
write_front n body c = if n == 0 then c else write_data (take n body) c

-- A boundary that is not the last: what is behind the blank line after it is not written.
abbrev pub middle_boundary : ℕ → Bytes → FileUploadContext → FileUploadContext
middle_boundary at body c = elim (find_text blank_line (drop at body)) [
  | none ↦ c
  | some _ ↦ set_state expect_content (write_front at body c)
]

-- The body of a further call.
unfoldable pub next_piece : Bytes → FileUploadContext → FileUploadContext
unfolding find_text write_data
next_piece body c = if is_empty body then c else (elim c.state [
  | expect_headers ↦ c
  | complete ↦ c
  | expect_content ↦ (elim (find_text c.boundary body) [
    | none ↦ write_data body c
    | some at ↦ set_state expect_boundary (write_data (take at body) c)
  ])
  | expect_boundary ↦ (elim (find_text (end_of_parts c.boundary) body) [
    | some at ↦ set_state complete (write_front at body c)
    | none ↦ (elim (find_text c.boundary body) [
      | some at ↦ middle_boundary at body c
      | none ↦ write_data body c
    ])
  ])
])

abbrev pub is_complete : State → Bool
is_complete complete = true
is_complete _ = false

-- `fs::path(...).filename()`
unfoldable pub last_name : Bytes → Bytes
unfolding find_last_byte
last_name path = elim (find_last_byte b'/' path) [ none ↦ path | some at ↦ drop (at + 1) path ]

module _ {ℓ} {W : Type ℓ} (world : World W) where
  -- The name that the client gives the file.
  unfoldable pub original_name : HttpRequest → Bytes
  unfolding get_header url_decode_from
  original_name req =
      if is_empty (get_header (bytes "X-File-Name") req)
      then (elim (world.regex_group (bytes "Content-Disposition:.*filename=\"([^\"]+)\"")
          req.body) [ none ↦ bytes "unknown_file" | some name ↦ name ])
      else url_decode_from world world.junk (get_header (bytes "X-File-Name") req)

  -- The file is opened under a new name, and the world is as that leaves it.
  unfoldable pub new_context : Bytes → Bytes → HttpRequest → W → FileUploadContext × W
  unfolding unique_filename original_name
  new_context upload_dir boundary req w =
      let (name, v) = unique_filename world (bytes "upload") w in
      let path = upload_dir ++ (b'/' ∷ name) in
      let opened = world.open_file path v in
      (
        set_boundary (bytes "--" ++ boundary)
            (Upload.create (is_some opened) path (original_name req)),
        elim opened [ none ↦ v | some u ↦ u ],
      )

  abbrev pub with_upload : Link → FileUploadContext → Exchange W → Exchange W
  with_upload link c x = record x {
    link = some (record link { attachment = some (uploading c) });
    request = set_body [] x.request;
  }

  abbrev pub uploaded_json : ℤ → Bytes → FileUploadContext → Json
  uploaded_json file_id server c = object (
      member (bytes "code") (number (pos 0)) (
        member (bytes "message") (text (bytes "上传成功")) (
          member (bytes "fileId") (number file_id) (
            member (bytes "filename") (text server) (
              member (bytes "originalFilename") (text c.original_filename)
                (member (bytes "size") (number (pos c.total_bytes)) no_more))))))

  -- The last reference to the context goes, and its file is closed.
  abbrev pub closed : FileUploadContext → W → W
  closed c w = elim c.file [ none ↦ w | some written ↦ world.close_file c.filename written w ]

  abbrev pub released : Link → FileUploadContext → Exchange W → Exchange W
  released link c x = record x {
    link = some (record link { attachment = none });
    db = record x.db { outside = closed c x.db.outside };
  }

  abbrev pub or_zero : Option ℤ → ℤ
  or_zero none = pos 0
  or_zero (some id) = id

  unfoldable pub finish_upload : ℤ → Link → FileUploadContext → Exchange W → Answer W
  unfolding last_name file_type_by_ext create_file send_json
  finish_upload user_id link c x =
      let server = last_name c.filename in
      let (file_id, db) =
        create_file world server c.original_filename c.total_bytes
          (file_type_by_ext c.original_filename) user_id x.db in
      (do
        y ← send_json world (uploaded_json (or_zero file_id) server c) 200 (record x { db = db })
        some (true, released link c y))

  -- The end of the handler: whether the upload is complete.
  unfoldable pub after_piece : ℤ → Link → FileUploadContext → Exchange W → Answer W
  unfolding finish_upload
  after_piece user_id link c x =
      if is_complete c.state || link.completed
      then finish_upload user_id link c (with_upload link c x)
      else some (false, with_upload link c x)

  unfoldable pub begin_upload : Bytes → ℤ → Link → Bytes → Exchange W → Answer W
  unfolding new_context first_piece after_piece
  begin_upload upload_dir user_id link boundary x =
      let (c, w) = new_context upload_dir boundary x.request x.db.outside in
      (do
        d ← first_piece x.request.body c
        after_piece user_id link d (record x { db = record x.db { outside = w } }))

  unfoldable pub upload : Bytes → ℤ → Exchange W → Answer W
  unfolding get_header begin_upload next_piece after_piece send_error
  upload upload_dir user_id x = elim x.link [
    | none ↦ refuse world (bytes "Internal Server Error") 500 x
    | some link ↦ (elim link.attachment [
      | some (downloading _) ↦ none
      | some (uploading c) ↦ after_piece user_id link (next_piece x.request.body c) x
      | none ↦
          if is_empty (get_header (bytes "Content-Type") x.request)
          then refuse world (bytes "Content-Type header is missing") 400 x
          else (elim (world.regex_group (bytes "boundary=(.+)$")
              (get_header (bytes "Content-Type") x.request)) [
                | none ↦ refuse world (bytes "Invalid Content-Type") 400 x
                | some boundary ↦ begin_upload upload_dir user_id link boundary x
              ])
    ])
  ]

  unfoldable pub handle_upload : Bytes → Exchange W → Answer W
  unfolding with_session upload
  handle_upload upload_dir x = with_session world (upload upload_dir) x
