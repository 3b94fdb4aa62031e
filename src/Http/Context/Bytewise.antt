-- ===== src/Http/Context/Bytewise.antt =====
-- `ParseChunkedBlock` takes the data of a chunk in one piece. It does what a machine does that
-- takes one byte at a time.
use c_cloud_storage.Prelude.{
  ℕ, zero, suc, ◌+◌, ◌-◌, ◌*◌, ◌<◌, ◌≡◌, refl, sym, ap, ◌∙◌, Bool, true, false, some, [], ◌∷◌, ◌++◌,
  length, drop, take, arith, Bytes, if◌then◌else◌, Bool-cases, inl, inr, length-drop, min, ◌==◌,
  append-nil, append_assoc,
}
use c_cloud_storage.Http.Request.{HttpRequest, append_body}
use c_cloud_storage.Http.Context.{
  HttpContext, Parsed, ChunkState, size, size_cr, in_data, data_cr, data_lf, trailers, last_cr,
}
use c_cloud_storage.Http.Context.Body.{
  Round, took, protocol_error, chunk_round, chunk_loop, chunk_fuel, parse_chunked_block,
}
use c_cloud_storage.Http.Context.Progress.{chunk_round-Descends, weight, weight-le}

abbrev pub stopped : HttpContext → Bool → Parsed
stopped c ok = record { ctx = c; consumed = 0; ok = ok }

abbrev pub later : ℕ → Parsed → Parsed
later n p = record p { consumed = n + p.consumed }

pub later-later : (m k j : ℕ) (p : Parsed) → j ≡ m + k → later m (later k p) ≡ later j p
later-later m k j p h = λ i. record p {
  consumed = (let e : m + (k + p.consumed) ≡ j + p.consumed = omega arith in e) i;
}

pub later_zero : (p : Parsed) → later 0 p ≡ p
later_zero p =
    λ i. record p { consumed = (let e : 0 + p.consumed ≡ p.consumed = omega arith in e) i }

later-stopped :
    (k : ℕ) (c : HttpContext) (ok : Bool)
    → later k (stopped c ok) ≡ record { ctx = c; consumed = k; ok = ok }
later-stopped k c ok =
    λ i. record { ctx = c; consumed = (let e : k + 0 ≡ k = omega arith in e) i; ok = ok }

-- The machine for single bytes: each round sees one byte and no more.
unfoldable pub byte_run : HttpContext → Bytes → Parsed
byte_run c [] = stopped c true
byte_run c (b ∷ s) =
    if c.body_complete then stopped c true else elim (chunk_round c.chunk_state b (b ∷ []) c) [
      | protocol_error ↦ stopped c false
      | took d n ↦ later 1 (byte_run d s)
    ]

-- A chunk is being read only while some of it is to come.
abbrev pub Awaits : ChunkState → ℕ → Type 0
Awaits in_data n = 0 < n
Awaits _ n = Unit {0}

abbrev pub IsReady : HttpContext → Type 0
IsReady c = Awaits c.chunk_state c.current_chunk_size

-- The context after `n` bytes of data.
abbrev pub after_data : ℕ → Bytes → HttpContext → HttpContext
after_data n rest c = record c {
  request = append_body (take n rest) c.request;
  current_chunk_size = c.current_chunk_size - n;
  chunk_state = if c.current_chunk_size - n == 0 then data_cr else in_data;
}

pub append_body-append_body :
    (s t : Bytes) (r : HttpRequest) → append_body t (append_body s r) ≡ append_body (s ++ t) r
unfolding append_body
append_body-append_body s t r = ap (λ b. record r { body = b }) (append_assoc r.body s t)

pub append_body_none : (r : HttpRequest) → append_body [] r ≡ r
unfolding append_body
append_body_none r = ap (λ b. record r { body = b }) (append-nil r.body)

data_byte :
    (b : ℕ) (s : Bytes) (c : HttpContext)
    → c.chunk_state ≡ in_data
    → c.body_complete ≡ false
    → 0 < c.current_chunk_size
    → byte_run c (b ∷ s) ≡ later 1 (byte_run (after_data 1 (b ∷ s) c) s)
unfolding byte_run chunk_round
data_byte b s c e more h =
    ground (arith, (let f : min c.current_chunk_size 1 ≡ 1 = omega arith in f))

after_data_step :
    (m b : ℕ) (r : Bytes) (c : HttpContext)
    → after_data m r (after_data 1 (b ∷ r) c) ≡ after_data (suc m) (b ∷ r) c
after_data_step m b r c = λ i. record c {
  request = append_body-append_body (b ∷ []) (take m r) c.request i;
  current_chunk_size = left i;
  chunk_state = if left i == 0 then data_cr else in_data;
}
  where
    left : c.current_chunk_size - 1 - m ≡ c.current_chunk_size - suc m
    left = omega arith

pub byte_run_data :
    (s : Bytes) (b : ℕ) (c : HttpContext) (n : ℕ)
    → c.chunk_state ≡ in_data
    → c.body_complete ≡ false
    → 0 < c.current_chunk_size
    → n ≡ min c.current_chunk_size (length (b ∷ s))
    → byte_run c (b ∷ s) ≡ later n (byte_run (after_data n (b ∷ s) c) (drop n (b ∷ s)))
byte_run_data [] b c n e more h f =
    let one : n ≡ 1 = omega arith in rw one (data_byte b [] c e more h)
byte_run_data (a ∷ s) b c n e more h f = elim (Bool-cases (c.current_chunk_size == 1)) [
  | inl last ↦ let one : n ≡ 1 = ground arith in rw one (data_byte b (a ∷ s) c e more h)
  | inr further ↦
      let m : ℕ = n - 1 in
      let e' : n ≡ suc m = ground arith in
      let one = data_byte b (a ∷ s) c e more h in
      let ih =
        byte_run_data s a (after_data 1 (b ∷ a ∷ s) c) m (ground arith) more (ground arith)
          (ground arith) in
      rw e' (
        one
        ∙ ap (later 1)
            (ih ∙ ap (λ d. later m (byte_run d (drop m (a ∷ s)))) (after_data_step m b (a ∷ s) c))
        ∙ later-later 1 m (suc m) _ (omega arith))
]

abbrev pub Kept : Round → Type 0
Kept (took d n) = IsReady d
Kept protocol_error = Unit {0}

pub chunk_round-Kept :
    (st : ChunkState) (b : ℕ) (s : Bytes) (c : HttpContext)
    → c.chunk_state ≡ st
    → IsReady c
    → Kept (chunk_round st b (b ∷ s) c)
unfolding chunk_round
chunk_round-Kept size b s c e h = ground arith
chunk_round-Kept size_cr b s c e h = ground arith
chunk_round-Kept in_data b s c e h = ground arith
chunk_round-Kept data_cr b s c e h = ground arith
chunk_round-Kept data_lf b s c e h = ground arith
chunk_round-Kept trailers b s c e h = ground arith
chunk_round-Kept last_cr b s c e h = ground arith

-- What a round that takes a whole piece comes to.
abbrev after_round : HttpContext → Bytes → Round → Parsed
after_round c rest protocol_error = stopped c false
after_round c rest (took d n) = later n (byte_run d (drop n rest))

byte_run-round :
    (st : ChunkState) (b : ℕ) (s : Bytes) (c : HttpContext)
    → c.chunk_state ≡ st
    → c.body_complete ≡ false
    → Awaits st c.current_chunk_size
    → byte_run c (b ∷ s) ≡ after_round c (b ∷ s) (chunk_round st b (b ∷ s) c)
unfolding byte_run chunk_round
byte_run-round size b s c e more h = ground arith
byte_run-round size_cr b s c e more h = ground arith
byte_run-round in_data b s c e more h = byte_run_data s b c _ e more h refl
byte_run-round data_cr b s c e more h = ground arith
byte_run-round data_lf b s c e more h = ground arith
byte_run-round trailers b s c e more h = ground arith
byte_run-round last_cr b s c e more h = ground arith

chunk_loop_step :
    (fuel : ℕ) (c : HttpContext) (b : ℕ) (s : Bytes) (consumed : ℕ) (r : Round)
    → chunk_round c.chunk_state b (b ∷ s) c ≡ r
    → c.body_complete ≡ false
    → ((d : HttpContext) (n : ℕ)
        → chunk_round c.chunk_state b (b ∷ s) c ≡ took d n
        → chunk_loop fuel d (drop n (b ∷ s)) (consumed + n)
          ≡ some (later (consumed + n) (byte_run d (drop n (b ∷ s)))))
    → chunk_loop (suc fuel) c (b ∷ s) consumed ≡ some (later consumed (after_round c (b ∷ s) r))
unfolding chunk_loop
chunk_loop_step fuel c b s consumed protocol_error e more ih = ground arith
chunk_loop_step fuel c b s consumed (took d n) e more ih =
    ground
      (arith, ih d n e, later-later consumed n (consumed + n) (byte_run d (drop n (b ∷ s))) refl)

chunk_loop-byte_run :
    (fuel : ℕ) (c : HttpContext) (s : Bytes) (consumed : ℕ)
    → 2 * length s + weight c.chunk_state < fuel
    → IsReady c
    → chunk_loop fuel c s consumed ≡ some (later consumed (byte_run c s))
chunk_loop-byte_run zero c s consumed h k = absurd (omega arith)
chunk_loop-byte_run (suc fuel) c [] consumed h k =
    unfold chunk_loop byte_run in ap some (sym (later-stopped consumed c true))
chunk_loop-byte_run (suc fuel) c (b ∷ s) consumed h k = elim (Bool-cases c.body_complete) [
  | inl done ↦ unfold chunk_loop byte_run in ground arith
  | inr more ↦
      chunk_loop_step fuel c b s consumed (chunk_round c.chunk_state b (b ∷ s) c) refl more
        (λ d n e.
          let down = rw e at (chunk_round-Descends c.chunk_state b s c refl) in
          chunk_loop-byte_run fuel d (drop n (b ∷ s)) (consumed + n)
            (omega (arith, length-drop n (b ∷ s)))
            (rw e at (chunk_round-Kept c.chunk_state b s c refl k)))
      ∙ ap (λ p. some (later consumed p)) (sym (byte_run-round c.chunk_state b s c refl more k))
]

-- In any state in which a chunk that is being read has bytes to come, `ParseChunkedBlock` does to
-- a piece of data what the machine does that takes it byte by byte.
pub parse_chunked_block-byte_run :
    (c : HttpContext) (part : Bytes)
    → IsReady c
    → parse_chunked_block c part ≡ some (byte_run c part)
unfolding parse_chunked_block
parse_chunked_block-byte_run c part h =
    chunk_loop-byte_run (chunk_fuel part) c part 0 (omega (arith, weight-le c.chunk_state)) h
    ∙ ap some (later_zero (byte_run c part))
