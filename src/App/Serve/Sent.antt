-- ===== src/App/Serve/Sent.antt =====
-- Which file the answer of a download of application/src lets the connection send.
use c_cloud_storage.Prelude.{
  ℕ, ◌≡◌, refl, sym, ap, ◌∙◌, Option, none, some, Bytes, bytes, arith, ◌&&◌, not, Bool-cases, inl,
  inr, ◌⊎◌, if_then, if_else,
}
use c_cloud_storage.Tcp.Buffer.{◌>>=◌}
use c_cloud_storage.Http.Request.{get_header}
use c_cloud_storage.Http.Response.{HttpResponse}
use c_cloud_storage.App.World.{World}
use c_cloud_storage.App.Range.{RangeSpec, parse}
use c_cloud_storage.App.Exchange.{
  Exchange, Answer, Link, Attachment, downloading, send_next, refuse, send_error,
}
use c_cloud_storage.App.Download
use c_cloud_storage.App.Download.{FileDownContext, seek_to}
use c_cloud_storage.App.Serve.{
  is_some, is_head, start_of, contents_of, open_download, attach_download, serve_file,
}

-- The object that the connection keeps before the answer.
abbrev pub kept {ℓ} : {W : Type ℓ} → Exchange W → Option Attachment
kept x = elim x.link [ none ↦ none | some link ↦ link.attachment ]

abbrev pub download_of : Option Link → Option FileDownContext
download_of none = none
download_of (some link) = elim link.attachment [ some (downloading c) ↦ some c | _ ↦ none ]

-- The download that the callback of an answer reads on in, if the answer sets that callback.
abbrev pub file_sent {ℓ} : {W : Type ℓ} → Answer W → Option FileDownContext
file_sent none = none
file_sent (some (b, y)) = elim y.on_write_complete [
  | some send_next ↦ download_of y.link
  | _ ↦ none
]

-- An error sends no file.
pub refuse-file_sent {ℓ} :
    {W : Type ℓ} (world : World W) (message : Bytes) (code : ℕ) (x : Exchange W)
    → file_sent (refuse world message code x) ≡ none
unfolding send_error
refuse-file_sent world message code x = ground arith

pub refuse_sends_none {ℓ κ} :
    {W : Type ℓ} {P : Type κ} (world : World W) (message : Bytes) (code : ℕ) (x : Exchange W)
    (c : FileDownContext)
    → file_sent (refuse world message code x) ≡ some c
    → P
refuse_sends_none world message code x c h =
    absurd (
      let no : none ≡ some c = sym (refuse-file_sent world message code x) ∙ h in
      ground (arith, no))

module _ {ℓ} {W : Type ℓ} (world : World W) where
  open_download-contents :
      (filepath original : Bytes) (start : ℕ) (w : W) (c : FileDownContext)
      → open_download world filepath original start w ≡ some c
      → world.read_file filepath w ≡ some c.contents
  unfolding open_download seek_to
  open_download-contents filepath original start w c h = at (world.read_file filepath w) refl h
    where
      at :
          (o : Option Bytes)
          → world.read_file filepath w ≡ o
          → (Download.create (is_some o) (contents_of o) (world.file_size filepath w) original
              >>= seek_to start)
            ≡ some c
          → world.read_file filepath w ≡ some c.contents
      at none e g = absurd (ground (arith, g))
      at (some s) e g = ground (arith, e, g)

  -- On a connection that keeps nothing, what a download sends is what it opens.
  attach_download-opened :
      (rs : RangeSpec) (size : ℕ) (filepath original : Bytes) (x : Exchange W) (link : Option Link)
      → x.link ≡ link
      → kept x ≡ none
      → (file_sent (attach_download world rs size filepath original x) ≡ none)
        ⊎ (file_sent (attach_download world rs size filepath original x)
            ≡ open_download world filepath original (start_of rs) x.db.outside)
  unfolding attach_download
  attach_download-opened rs size filepath original x none e f =
      inl (ground (arith, e, refuse-file_sent world (bytes "Internal Server Error") 500 x))
  attach_download-opened rs size filepath original x (some link) e f =
      inr (at (open_download world filepath original (start_of rs) x.db.outside) refl)
    where
      empty : link.attachment ≡ none
      empty = ground (arith, e, f)

      at :
          (o : Option FileDownContext)
          → open_download world filepath original (start_of rs) x.db.outside ≡ o
          → file_sent (attach_download world rs size filepath original x)
            ≡ open_download world filepath original (start_of rs) x.db.outside
      at none g = ground (arith, e, empty, g)
      at (some c) g = ground (arith, e, empty, g)

  attach_download-file_sent :
      (rs : RangeSpec) (size : ℕ) (filepath original : Bytes) (x : Exchange W) (c : FileDownContext)
      → kept x ≡ none
      → file_sent (attach_download world rs size filepath original x) ≡ some c
      → world.read_file filepath x.db.outside ≡ some c.contents
  attach_download-file_sent rs size filepath original x c f h =
      elim (attach_download-opened rs size filepath original x x.link refl f) [
        | inl e ↦ absurd (let no : none ≡ some c = sym e ∙ h in ground (arith, no))
        | inr e ↦ open_download-contents filepath original (start_of rs) x.db.outside c (sym e ∙ h)
      ]

  -- On a connection that keeps nothing, a file that is sent is the one below the path.
  pub serve_file-file_sent :
      (heading : ℕ → HttpResponse → HttpResponse) (no_range filepath original : Bytes)
      (x : Exchange W) (c : FileDownContext)
      → kept x ≡ none
      → file_sent (serve_file world heading no_range filepath original x) ≡ some c
      → world.read_file filepath x.db.outside ≡ some c.contents
  unfolding serve_file
  serve_file-file_sent heading no_range filepath original x c f h =
      elim (Bool-cases
        (not (world.exists filepath x.db.outside && world.is_regular_file filepath x.db.outside))) [
          | inl absent ↦
              refuse_sends_none world (bytes "文件不存在") 404 x c
                (ap file_sent (sym (if_then _ _ absent)) ∙ h)
          | inr present ↦ elim (Bool-cases (is_head x.request.method)) [
            | inl heads ↦ absurd (ground (arith, h, present, heads))
            | inr gets ↦ elim (Bool-cases (rs.is_range && not rs.satisfiable)) [
              | inl bad ↦ refuse_sends_none world no_range 416 x c (
                  ap file_sent (sym (if_else _ _ present ∙ if_else _ _ gets ∙ if_then _ _ bad)) ∙ h)
              | inr good ↦
                  attach_download-file_sent rs (world.file_size filepath x.db.outside) filepath
                    original x c f
                    (ap file_sent (sym (if_else _ _ present ∙ if_else _ _ gets ∙ if_else _ _ good))
                      ∙ h)
            ]
          ]
        ]
    where
      rs : RangeSpec
      rs = parse (get_header (bytes "Range") x.request) (world.file_size filepath x.db.outside)
