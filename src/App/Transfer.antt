-- ===== src/App/Transfer.antt =====
-- A file that is written in pieces and read in chunks.
use c_cloud_storage.Prelude.{
  ℕ, zero, suc, ◌+◌, ◌-◌, ◌%◌, ◌^◌, ◌≤◌, ◌<◌, ◌≡◌, refl, sym, ap, ◌∙◌, min, Bool, true, false,
  Option, none, some, List, [], ◌∷◌, ◌++◌, length, take, drop, replicate, leb, ◌==◌, if_then,
  if_else, Bytes, arith, Bool-cases, inl, inr, append-nil, append_assoc, take-append-drop,
  drop-drop, drop_all, length-drop, length-take,
}
use c_cloud_storage.App.Upload
use c_cloud_storage.App.Upload.{FileUploadContext, write_data, write_all}
use c_cloud_storage.App.Download
use c_cloud_storage.App.Download.{
  FileDownContext, seek_to, read_next_chunk, read_chunk, read_chunks, read_bytes, read_stream,
  bytes_to_read, chunk_size,
}

abbrev pub join : List Bytes → Bytes
join [] = []
join (part ∷ parts) = part ++ join parts

data_written :
    (part : Bytes) (c : FileUploadContext) (written : Bytes)
    → c.file ≡ some written
    → (write_data part c).file ≡ some (written ++ part)
unfolding write_data
data_written part c written e = ground (arith, e)

write_all-file :
    (parts : List Bytes) (c : FileUploadContext) (written : Bytes)
    → c.file ≡ some written
    → (write_all parts c).file ≡ some (written ++ join parts)
unfolding write_all write_data
write_all-file [] c written e = e ∙ ap some (sym (append-nil written))
write_all-file (part ∷ parts) c written e =
    write_all-file parts (write_data part c) (written ++ part) (data_written part c written e)
    ∙ ap some (append_assoc written part (join parts))

-- A context that has read the file up to `p`; the file is as long as it was when it was opened.
abbrev pub intact : Bytes → ℕ → Bytes → FileDownContext
intact s p original = record {
  original_filename = original;
  is_open = true;
  contents = s;
  get = p;
  good = true;
  file_size = length s;
  current_position = p;
  is_complete = false;
}

left_to_read :
    (s : Bytes) (p : ℕ) (original : Bytes)
    → p ≤ length s
    → length s < 2 ^ 64
    → bytes_to_read (intact s p original) ≡ min chunk_size (length s - p)
left_to_read s p original inside small = omega arith

abbrev after_read : Bytes → Bytes → Bool → ℕ → ℕ → Bytes → FileDownContext × Option Bytes
after_read s original good get position chunk =
    (record (intact s get original) { good = good; current_position = position }, some chunk)

whole_chunk :
    (n : ℕ) (l : Bytes) → n ≤ length l → take n l ++ replicate (n - length (take n l)) 0 ≡ take n l
whole_chunk n l h =
    ap (λ k. take n l ++ replicate k 0)
      (let none_missing : n - length (take n l) ≡ 0 = omega (arith, length-take n l) in
        none_missing)
    ∙ append-nil (take n l)

chunk_lem :
    (n : ℕ) (s : Bytes) (p : ℕ) (original : Bytes)
    → (n == 0) ≡ false
    → n ≤ length s - p
    → p ≤ length s
    → length s < 2 ^ 64
    → read_chunk n (intact s p original) ≡ (intact s (p + n) original, some (take n (drop p s)))
chunk_lem n s p original some_bytes fits inside small =
    if_else _ _ some_bytes
    ∙ ap
        (λ b.
          after_read s original b (p + min n (length s - p)) ((p + n) % 2 ^ 64)
            (read_bytes n (intact s p original)))
        (let reads_well : leb n (length s - p) ≡ true = ground (arith, fits) in reads_well)
    ∙ ap (λ k. after_read s original true k ((p + n) % 2 ^ 64) (read_bytes n (intact s p original)))
        (let moves : p + min n (length s - p) ≡ p + n = omega arith in moves)
    ∙ ap (λ k. after_read s original true (p + n) k (read_bytes n (intact s p original)))
        (let counts : (p + n) % 2 ^ 64 ≡ p + n = omega arith in counts)
    ∙ ap (after_read s original true (p + n) (p + n))
        (whole_chunk n (drop p s) (omega (arith, length-drop p s)))

next_chunk_lem :
    (n : ℕ) (s : Bytes) (p : ℕ) (original : Bytes)
    → n ≡ min chunk_size (length s - p)
    → p ≤ length s
    → length s < 2 ^ 64
    → read_next_chunk (intact s p original) ≡ read_chunk n (intact s p original)
unfolding read_next_chunk
next_chunk_lem n s p original e inside small =
    ap (λ k. read_chunk k (intact s p original)) (left_to_read s p original inside small ∙ sym e)

abbrev chunks_after : ℕ → FileDownContext × Option Bytes → Option Bytes
chunks_after fuel r = elim r.1 [
  | none ↦ some []
  | some chunk ↦ (elim (read_chunks fuel r.0) [ none ↦ none | some s ↦ some (chunk ++ s) ])
]

abbrev in_front : Bytes → Option Bytes → Option Bytes
in_front chunk o = elim o [ none ↦ none | some s ↦ some (chunk ++ s) ]

-- The chunks that `readNextChunk` gives, one after the other until it gives none, are the file from
-- the position on, without a gap and without anything else, and they come to an end. The file is as
-- long as it was when it was opened.
pub read_chunks_lem :
    (fuel : ℕ) (s : Bytes) (p : ℕ) (original : Bytes)
    → p ≤ length s
    → length s < 2 ^ 64
    → length s - p < fuel
    → read_chunks fuel (intact s p original) ≡ some (drop p s)
unfolding read_chunks
read_chunks_lem zero s p original inside small enough = absurd (omega arith)
read_chunks_lem (suc fuel) s p original inside small enough =
    let n : ℕ = min chunk_size (length s - p) in
    let step = next_chunk_lem n s p original refl inside small in
    elim (Bool-cases (n == 0)) [
      | inl e ↦
          ap (chunks_after fuel) (step ∙ if_then _ _ e)
          ∙ ap some (sym (drop_all p s (ground (arith, e))))
      | inr e ↦
          ap (chunks_after fuel) (step ∙ chunk_lem n s p original e (omega arith) inside small)
          ∙ ap (in_front (take n (drop p s)))
              (read_chunks_lem fuel s (p + n) original (omega arith) small (ground (arith, e)))
          ∙ ap (λ l. some (take n (drop p s) ++ l)) (sym (drop-drop (p + n) n p s refl))
          ∙ ap some (take-append-drop n (drop p s))
    ]

-- A file opened for download, read from a position on.
abbrev pub downloaded : ℕ → Bytes → Bytes → Option Bytes
downloaded pos s original = elim (Download.create true s (length s) original) [
  | none ↦ none
  | some c ↦ (elim (seek_to pos c) [ none ↦ none | some d ↦ read_chunks (length s + 1) d ])
]

downloaded_lem :
    (pos : ℕ) (s original : Bytes)
    → pos ≤ length s
    → length s < 2 ^ 64
    → downloaded pos s original ≡ some (drop pos s)
unfolding seek_to
downloaded_lem pos s original inside small =
    read_chunks_lem (length s + 1) s pos original inside small (omega arith)

-- What was uploaded is what is downloaded: a file that was written in any pieces and is then read
-- in chunks, from any position in it on, gives the pieces in order, from that position on.
pub write_all-downloaded :
    (parts : List Bytes) (filename original : Bytes) (pos : ℕ)
    → pos ≤ length (join parts)
    → length (join parts) < 2 ^ 64
    → (s : Bytes) × ((write_all parts (Upload.create true filename original)).file ≡ some s)
      × (downloaded pos s original ≡ some (drop pos (join parts)))
write_all-downloaded parts filename original pos inside small = (
  join parts,
  write_all-file parts (Upload.create true filename original) [] refl,
  downloaded_lem pos (join parts) original inside small,
)
