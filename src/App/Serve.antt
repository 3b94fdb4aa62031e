-- ===== src/App/Serve.antt =====
-- The sending of a file, which `FileHandler::handleDownload` and `ShareHandler::handleShareDownload`
-- of application/src end with in the same words, and the callback that sends its chunks.
pub mod Whole
pub mod Sent
use c_cloud_storage.Prelude.{
  ℕ, zero, suc, Bool, true, false, Option, none, some, List, [], ◌∷◌, ◌++◌, length, if◌then◌else◌,
  ◌&&◌, not, Bytes, bytes,
}
use c_cloud_storage.Prelude.Number.{decimal}
use c_cloud_storage.Tcp.Buffer.{◌>>=◌}
use c_cloud_storage.Http.Request.{HttpRequest, HttpMethod, get_header}
use c_cloud_storage.Http.Response.{HttpResponse, html_type, add_header, set_content_type, to_int}
use c_cloud_storage.Http.Response.Status
use c_cloud_storage.App.World.{World}
use c_cloud_storage.App.Range.{RangeSpec, parse}
use c_cloud_storage.App.Exchange.{
  Exchange, Answer, Link, Attachment, uploading, downloading, shut_down, send_next, refuse,
  send_error,
}
use c_cloud_storage.App.Download
use c_cloud_storage.App.Download.{FileDownContext, seek_to, read_next_chunk}

abbrev pub is_head : HttpMethod → Bool
is_head HttpMethod.head = true
is_head _ = false

-- `"bytes " + start + "-" + end + "/" + size`
unfoldable pub content_range : RangeSpec → ℕ → Bytes
unfolding decimal
content_range rs size =
    bytes "bytes " ++ (decimal rs.start ++ (b'-' ∷ (decimal rs.end ++ (b'/' ∷ decimal size))))

abbrev pub with_status : RangeSpec → ℕ → HttpResponse → HttpResponse
with_status rs size r =
    if rs.is_range
    then add_header (bytes "Content-Range") (content_range rs size) (record r {
      status_code = Status.partial_content;
      status_message = bytes "Partial Content";
    })
    else record r { status_code = Status.ok; status_message = bytes "OK" }

-- The response of a download that begins.
unfoldable pub download_response : RangeSpec → ℕ → Bytes → HttpResponse → HttpResponse
unfolding content_range add_header set_content_type
download_response rs size original r = add_header (bytes "Connection") (bytes "keep-alive") (
    add_header (bytes "Accept-Ranges") (bytes "bytes") (
      add_header (bytes "Content-Disposition")
        (bytes "attachment; filename=\"" ++ (original ++ bytes "\""))
        (record (set_content_type (bytes "application/octet-stream") (with_status rs size r)) {
          body_type = some html_type;
          content_length = to_int size;
        })))

abbrev pub start_of : RangeSpec → ℕ
start_of rs = if rs.is_range then rs.start else 0

abbrev pub contents_of : Option Bytes → Bytes
contents_of none = []
contents_of (some s) = s

abbrev pub is_some {ℓ} : {A : Type ℓ} → Option A → Bool
is_some none = false
is_some (some _) = true

module _ {ℓ} {W : Type ℓ} (world : World W) where
  -- The context of a new download, at its start.
  unfoldable pub open_download : Bytes → Bytes → ℕ → W → Option FileDownContext
  unfolding seek_to
  open_download filepath original start w = do
    c ←
        Download.create (is_some (world.read_file filepath w))
          (contents_of (world.read_file filepath w)) (world.file_size filepath w) original
    seek_to start c

  unfoldable pub attach_download : RangeSpec → ℕ → Bytes → Bytes → Exchange W → Answer W
  unfolding open_download download_response send_error
  attach_download rs size filepath original x = elim x.link [
    | none ↦ refuse world (bytes "Internal Server Error") 500 x
    | some link ↦ (elim link.attachment [
      | none ↦ (do
        c ← open_download filepath original (start_of rs) x.db.outside
        some (
          true,
          record x {
            response = download_response rs size original x.response;
            link = some (record link { attachment = some (downloading c) });
            on_write_complete = some send_next;
          },
        ))
      | some (downloading c) ↦ some (true, record x { on_write_complete = some send_next })
      | some (uploading c) ↦ none
    ])
  ]

  -- A file that the request may have: `heading` answers a HEAD request, `no_range` is the message
  -- for a range that cannot be had.
  unfoldable pub serve_file :
      (ℕ → HttpResponse → HttpResponse) → Bytes → Bytes → Bytes → Exchange W → Answer W
  unfolding parse get_header attach_download send_error
  serve_file heading no_range filepath original x =
      let size = world.file_size filepath x.db.outside in
      let rs = parse (get_header (bytes "Range") x.request) size in
      if not (world.exists filepath x.db.outside && world.is_regular_file filepath x.db.outside)
      then refuse world (bytes "文件不存在") 404 x
      else if is_head x.request.method
      then some (
        true,
        record x { response = heading size x.response; on_write_complete = some shut_down },
      )
      else if rs.is_range && not rs.satisfiable
      then refuse world no_range 416 x
      else attach_download rs size filepath original x

abbrev pub after_read {ℓ} :
    {W : Type ℓ} → Exchange W → Link → FileDownContext × Option Bytes → Exchange W × Option Bytes
after_read x link (c, chunk) =
    (record x { link = some (record link { attachment = some (downloading c) }) }, chunk)

-- The callback of a download: the chunk that it sends; without one it closes the connection.
-- `none`: the connection keeps no download.
unfoldable pub next_chunk {ℓ} : {W : Type ℓ} → Exchange W → Option (Exchange W × Option Bytes)
unfolding read_next_chunk
next_chunk x = elim x.link [
  | none ↦ none
  | some link ↦ (elim link.attachment [
    | some (downloading c) ↦ some (after_read x link (read_next_chunk c))
    | _ ↦ none
  ])
]

-- All that the callback sends until it closes the connection. `none`: it does not come to that.
unfoldable pub sent_in_all {ℓ} : {W : Type ℓ} → ℕ → Exchange W → Option Bytes
unfolding next_chunk
sent_in_all zero x = none
sent_in_all {W = W} (suc fuel) x =
    let more : Exchange W → Option Bytes = sent_in_all fuel in
    elim (next_chunk x) [
      | none ↦ none
      | some r ↦ (elim r.1 [
        | none ↦ some []
        | some chunk ↦ (elim (more r.0) [ none ↦ none | some rest ↦ some (chunk ++ rest) ])
      ])
    ]
