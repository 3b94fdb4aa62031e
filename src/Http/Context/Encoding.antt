-- ===== src/Http/Context/Encoding.antt =====
-- `ParseChunkedBlock` reads back a body that was sent in chunks.
use c_cloud_storage.Prelude.{
  ℕ, suc, ◌+◌, ◌-◌, ◌<◌, ◌≡◌, refl, ap, ◌∙◌, true, false, some, List, [], ◌∷◌, ◌++◌, length, drop,
  arith, Bytes, append-nil, append_assoc, take-append_length, drop-append_length, length-append,
}
use c_cloud_storage.Prelude.Split.{Lacks}
use c_cloud_storage.Prelude.Number.{strtoul_16, skip_spaces, read_sign, skip_0x, parse_digits}
use c_cloud_storage.Http.Request.{HttpRequest, append_body}
use c_cloud_storage.Http.Context.{
  HttpContext, complete, Parsed, ChunkState, size, size_cr, in_data, data_cr, last_cr,
}
use c_cloud_storage.Http.Context.Body.{chunk_round, parse_chunked_block}
use c_cloud_storage.Http.Context.Bytewise.{
  append_body-append_body, append_body_none, later, later-later, byte_run, byte_run_data,
  after_data, parse_chunked_block-byte_run,
}
use c_cloud_storage.Http.Context.Fragments.{byte_run_done}

-- A chunk: how its size is written, and its data.
abbrev pub Chunk : Type 0
Chunk = Bytes × Bytes

abbrev pub encode_chunk : Chunk → Bytes → Bytes
encode_chunk (text, payload) rest = text ++ 13 ∷ 10 ∷ (payload ++ 13 ∷ 10 ∷ rest)

abbrev pub encode_chunks : List Chunk → Bytes → Bytes
encode_chunks [] rest = b'0' ∷ 13 ∷ 10 ∷ 13 ∷ 10 ∷ rest
encode_chunks (c ∷ cs) rest = encode_chunk c (encode_chunks cs rest)

abbrev pub payloads : List Chunk → Bytes
payloads [] = []
payloads ((text, payload) ∷ cs) = payload ++ payloads cs

-- `strtoul` reads the length of the data in the text of the size; only the last chunk is empty.
abbrev pub AreChunks : List Chunk → Type 0
AreChunks [] = Unit {0}
AreChunks ((text, payload) ∷ cs) =
    Lacks 13 text × (strtoul_16 text ≡ length payload) × (0 < length payload) × AreChunks cs

-- The context in the middle of a body.
abbrev pub reading : ChunkState → Bytes → ℕ → HttpRequest → HttpContext → HttpContext
reading st text n r c = record c {
  chunk_state = st;
  chunk_size_buf = text;
  current_chunk_size = n;
  request = r;
  body_complete = false;
}

zero_size : strtoul_16 (b'0' ∷ []) ≡ 0
unfolding strtoul_16 skip_spaces read_sign skip_0x parse_digits
zero_size = refl

module _ (r : HttpRequest) (c : HttpContext) where
  size_text :
      (s t buf : Bytes) (n : ℕ)
      → Lacks 13 s
      → byte_run (reading size buf n r c) (s ++ 13 ∷ t)
        ≡ later (length s + 1) (byte_run (reading size_cr (buf ++ s) n r c) t)
  unfolding byte_run chunk_round
  size_text [] t buf n h = rw append-nil refl
  size_text (b ∷ s) t buf n h = rw (h.0) (
      ap (later 1) (size_text s t (buf ++ b ∷ []) n h.1)
      ∙ later-later 1 (length s + 1) (suc (length s) + 1) _ (omega arith)
      ∙ ap (λ text. later (suc (length s) + 1) (byte_run (reading size_cr text n r c) t))
          (append_assoc buf (b ∷ []) s))

  size_end :
      (s t : Bytes) (n k : ℕ)
      → strtoul_16 s ≡ suc k
      → byte_run (reading size_cr s n r c) (10 ∷ t)
        ≡ later 1 (byte_run (reading in_data [] (suc k) r c) t)
  unfolding byte_run chunk_round
  size_end s t n k h = ground (arith, h)

  data_end :
      (t : Bytes)
      → byte_run (reading data_cr [] 0 r c) (13 ∷ 10 ∷ t)
        ≡ later 2 (byte_run (reading size [] 0 r c) t)
  unfolding byte_run chunk_round
  data_end t = later-later 1 1 2 _ refl

  -- The last chunk.
  body_end :
      (t : Bytes) (n : ℕ)
      → byte_run (reading size [] n r c) (b'0' ∷ 13 ∷ 10 ∷ 13 ∷ 10 ∷ t) ≡ record {
        ctx = record (reading last_cr [] 0 r c) { body_complete = true; state = complete };
        consumed = 5;
        ok = true;
      }
  unfolding byte_run chunk_round
  body_end t n = rw zero_size (
      rw
        (byte_run_done t
          (record (reading last_cr [] 0 r c) { body_complete = true; state = complete }) refl)
        refl)

  after_all :
      (p t : Bytes) (n : ℕ)
      → n ≡ length p
      → byte_run (after_data n (p ++ t) (reading in_data [] n r c)) (drop n (p ++ t))
        ≡ byte_run (reading data_cr [] 0 (append_body p r) c) t
  after_all p t n h = ground (
    arith,
    take-append_length p t,
    drop-append_length p t,
    (let e : n - n ≡ 0 = omega arith in e),
  )

  data_bytes :
      (b : ℕ) (p t : Bytes)
      → byte_run (reading in_data [] (length (b ∷ p)) r c) ((b ∷ p) ++ t)
        ≡ later (length (b ∷ p)) (byte_run (reading data_cr [] 0 (append_body (b ∷ p) r) c) t)
  data_bytes b p t =
      byte_run_data (p ++ t) b (reading in_data [] (length (b ∷ p)) r c) (length (b ∷ p)) refl refl
        (omega arith) (omega (arith, length-append p t))
      ∙ ap (later (length (b ∷ p))) (after_all (b ∷ p) t (length (b ∷ p)) refl)

later_chunk :
    (m k j : ℕ) (p : Parsed) → j ≡ m + k + 3 → later m (later 1 (later k (later 2 p))) ≡ later j p
later_chunk m k j p h = λ i. record p {
  consumed = (let e : m + (1 + (k + (2 + p.consumed))) ≡ j + p.consumed = omega arith in e) i;
}

chunk_lem :
    (text p t : Bytes) (b n : ℕ) (r : HttpRequest) (c : HttpContext)
    → Lacks 13 text
    → strtoul_16 text ≡ length (b ∷ p)
    → byte_run (reading size [] n r c) (encode_chunk (text, b ∷ p) t)
      ≡ later
          (length text + length (b ∷ p) + 4)
          (byte_run (reading size [] 0 (append_body (b ∷ p) r) c) t)
chunk_lem text p t b n r c h e =
    size_text r c text _ [] n h
    ∙ ap (later (length text + 1)) (
        size_end r c text _ n (length p) e
        ∙ ap (later 1) (
            data_bytes r c b p _
            ∙ ap (later (length (b ∷ p))) (data_end (append_body (b ∷ p) r) c t)))
    ∙ later_chunk (length text + 1) (length (b ∷ p)) _ _ (omega arith)

-- The context and the count when a body has been read.
abbrev pub whole_body : List Chunk → HttpRequest → HttpContext → Parsed
whole_body cs r c = record {
  ctx = record (reading last_cr [] 0 (append_body (payloads cs) r) c) {
    body_complete = true;
    state = complete;
  };
  consumed = length (encode_chunks cs []);
  ok = true;
}

length-encode_chunk :
    (text p rest : Bytes)
    → length text + length p + 4 + length rest ≡ length (encode_chunk (text, p) rest)
length-encode_chunk text p rest =
    omega (
      arith,
      length-append text (13 ∷ 10 ∷ (p ++ 13 ∷ 10 ∷ rest)),
      length-append p (13 ∷ 10 ∷ rest),
    )

whole_body_cons :
    (text p : Bytes) (cs : List Chunk) (r : HttpRequest) (c : HttpContext)
    → later (length text + length p + 4) (whole_body cs (append_body p r) c)
      ≡ whole_body ((text, p) ∷ cs) r c
whole_body_cons text p cs r c = λ i. record {
  ctx = record (reading last_cr [] 0 (append_body-append_body p (payloads cs) r i) c) {
    body_complete = true;
    state = complete;
  };
  consumed = length-encode_chunk text p (encode_chunks cs []) i;
  ok = true;
}

byte_run-encode_chunks :
    (cs : List Chunk) (t : Bytes) (n : ℕ) (r : HttpRequest) (c : HttpContext)
    → AreChunks cs
    → byte_run (reading size [] n r c) (encode_chunks cs t) ≡ whole_body cs r c
byte_run-encode_chunks [] t n r c a = body_end r c t n ∙ rw append_body_none refl
byte_run-encode_chunks ((text, []) ∷ cs) t n r c (h, e, ne, a) = absurd (omega arith)
byte_run-encode_chunks ((text, b ∷ p) ∷ cs) t n r c (h, e, ne, a) =
    chunk_lem text p (encode_chunks cs t) b n r c h e
    ∙ ap (later (length text + length (b ∷ p) + 4))
        (byte_run-encode_chunks cs t 0 (append_body (b ∷ p) r) c a)
    ∙ whole_body_cons text (b ∷ p) cs r c

-- `ParseChunkedBlock` at the start of a body takes exactly the bytes of an encoding in chunks,
-- whatever follows them: the data of the chunks, in order, is added to the body of the request,
-- and the request is complete. A chunk's size is written in any way, without a carriage return,
-- that `strtoul` reads as the length of its data; the data may hold any bytes and is not empty.
pub parse_chunked_block-encode_chunks :
    (cs : List Chunk) (rest : Bytes) (r : HttpRequest) (c : HttpContext)
    → AreChunks cs
    → parse_chunked_block (reading size [] 0 r c) (encode_chunks cs rest) ≡ some (whole_body cs r c)
parse_chunked_block-encode_chunks cs rest r c a =
    parse_chunked_block-byte_run (reading size [] 0 r c) (encode_chunks cs rest) tt
    ∙ ap some (byte_run-encode_chunks cs rest 0 r c a)
