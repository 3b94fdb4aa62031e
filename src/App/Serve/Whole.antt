-- ===== src/App/Serve/Whole.antt =====
-- What a download sends.
use c_cloud_storage.Prelude.{
  ℕ, zero, suc, ◌^◌, ◌≡◌, refl, ap, ◌∙◌, ◌<◌, ◌≤◌, true, Option, none, some, drop, [], ◌++◌, length,
  Bytes, bytes, arith,
}
use c_cloud_storage.Tcp.Buffer.{◌>>=◌}
use c_cloud_storage.App.World.{World}
use c_cloud_storage.App.Range.{RangeSpec}
use c_cloud_storage.App.Download
use c_cloud_storage.App.Download.{FileDownContext, seek_to, read_chunks, read_next_chunk}
use c_cloud_storage.App.Transfer.{intact, read_chunks_lem}
use c_cloud_storage.App.Exchange.{
  Exchange, Answer, Link, Attachment, uploading, downloading, send_next, refuse,
}
use c_cloud_storage.App.Serve.{
  open_download, attach_download, download_response, next_chunk, sent_in_all, start_of, after_read,
  is_some, contents_of,
}

next_chunk_lem {ℓ} :
    {W : Type ℓ} (x : Exchange W) (link : Link) (c : FileDownContext)
    → x.link ≡ some link
    → link.attachment ≡ some (downloading c)
    → next_chunk x ≡ some (after_read x link (read_next_chunk c))
unfolding next_chunk
next_chunk_lem x link c e f =
    ap
      (λ l. elim l [
        | none ↦ none
        | some k ↦ (elim k.attachment [
          | some (downloading d) ↦ some (after_read x k (read_next_chunk d))
          | _ ↦ none
        ])
      ])
      e
    ∙ ap
        (λ a. elim a [
          | some (downloading d) ↦ some (after_read x link (read_next_chunk d))
          | _ ↦ none
        ])
        f

-- The callback sends what the download reads.
pub sent_in_all-read_chunks {ℓ} :
    {W : Type ℓ} (fuel : ℕ) (x : Exchange W) (link : Link) (c : FileDownContext)
    → x.link ≡ some link
    → link.attachment ≡ some (downloading c)
    → sent_in_all fuel x ≡ read_chunks fuel c
unfolding sent_in_all read_chunks
sent_in_all-read_chunks zero x link c e f = refl
sent_in_all-read_chunks {W = W} (suc fuel) x link c e f =
    ap
      (λ o. elim o [
        | none ↦ none
        | some r ↦ (elim r.1 [
          | none ↦ some []
          | some chunk ↦ (elim (sent_in_all fuel r.0) [
            | none ↦ none
            | some rest ↦ some (chunk ++ rest)
          ])
        ])
      ])
      (next_chunk_lem x link c e f)
    ∙ ap
        (λ rest. elim (read_next_chunk c).1 [
          | none ↦ some []
          | some chunk ↦ (elim rest [ none ↦ none | some s ↦ some (chunk ++ s) ])
        ])
        (sent_in_all-read_chunks fuel (after_read x link (read_next_chunk c)).0
          (record link { attachment = some (downloading (read_next_chunk c).0) })
          (read_next_chunk c).0 refl refl)

open_download_lem {ℓ} :
    {W : Type ℓ} (world : World W) (path original s : Bytes) (start : ℕ) (w : W)
    → world.read_file path w ≡ some s
    → world.file_size path w ≡ length s
    → open_download world path original start w ≡ some (intact s start original)
unfolding open_download seek_to
open_download_lem world path original s start w readable size =
    ap
      (λ o.
        Download.create (is_some o) (contents_of o) (world.file_size path w) original
        >>= seek_to start)
      readable
    ∙ ap (λ n. Download.create true s n original >>= seek_to start) size

-- A download that begins on a connection that keeps no context yet: the handler answers, and what
-- the callbacks send then is the file from the start of the range on, to its very end, if it can be
-- read and has the size that the file system says.
pub attach_download-sent_in_all {ℓ} :
    {W : Type ℓ} (world : World W) (rs : RangeSpec) (path original s : Bytes) (fuel : ℕ)
    (x : Exchange W) (link : Link)
    → x.link ≡ some link
    → link.attachment ≡ none
    → world.read_file path x.db.outside ≡ some s
    → world.file_size path x.db.outside ≡ length s
    → length s < 2 ^ 64
    → start_of rs ≤ length s
    → length s < fuel
    → (y : Exchange W) × (attach_download world rs (length s) path original x ≡ some (true, y))
      × (sent_in_all fuel y ≡ some (drop (start_of rs) s))
unfolding attach_download open_download seek_to
attach_download-sent_in_all {W = W} world rs path original s fuel x link e f readable size small
      inside enough =
    let c = intact s (start_of rs) original in
    let y = begun link c in
    (
      y,
      ap
            (λ l. elim l [
              | none ↦ refuse world (bytes "Internal Server Error") 500 x
              | some k ↦ begin_on k (k.attachment)
            ])
            e
          ∙ ap (begin_on link) f
          ∙ ap (λ o. o >>= λ d. some (true, begun link d))
              (open_download_lem world path original s (start_of rs) x.db.outside readable size),
      sent_in_all-read_chunks fuel y (record link { attachment = some (downloading c) }) c refl refl
          ∙ read_chunks_lem fuel s (start_of rs) original inside small (omega arith),
    )
  where
    begun : Link → FileDownContext → Exchange W
    begun k d = record x {
      response = download_response rs (length s) original x.response;
      link = some (record k { attachment = some (downloading d) });
      on_write_complete = some send_next;
    }

    begin_on : Link → Option Attachment → Answer W
    begin_on k none = do
      d ← open_download world path original (start_of rs) x.db.outside
      some (true, begun k d)
    begin_on k (some (downloading d)) = some (true, record x { on_write_complete = some send_next })
    begin_on k (some (uploading d)) = none
