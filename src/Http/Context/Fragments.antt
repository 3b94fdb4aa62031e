-- ===== src/Http/Context/Fragments.antt =====
-- A body in chunks may come from the network in any pieces: `ParseChunkedBlock` on each piece in
-- turn does what it does on the whole.
use c_cloud_storage.Prelude.{
  ℕ, ◌+◌, ◌≡◌, refl, sym, subst, ap, ◌∙◌, Bool, true, false, Option, none, some, List, [], ◌∷◌,
  ◌++◌, arith, Bytes, if◌then◌else◌, Bool-cases, inl, inr,
}
use c_cloud_storage.Http.Context.{HttpContext, Parsed}
use c_cloud_storage.Http.Context.Body.{
  Round, took, protocol_error, chunk_round, parse_chunked_block,
}
use c_cloud_storage.Http.Context.Bytewise.{
  stopped, later, later-later, later_zero, byte_run, IsReady, Kept, chunk_round-Kept,
  parse_chunked_block-byte_run,
}

-- What follows on a piece: nothing behind an error.
abbrev then_bytes : Parsed → Bytes → Parsed
then_bytes p t = if p.ok then later p.consumed (byte_run p.ctx t) else p

then_bytes-later :
    (k : ℕ) (p : Parsed) (t : Bytes) → then_bytes (later k p) t ≡ later k (then_bytes p t)
then_bytes-later k p t =
    ground (arith, later-later k p.consumed (k + p.consumed) (byte_run p.ctx t) refl)

pub byte_run_done :
    (t : Bytes) (c : HttpContext) → c.body_complete ≡ true → byte_run c t ≡ stopped c true
unfolding byte_run
byte_run_done [] c h = refl
byte_run_done (b ∷ t) c h = ground arith

-- What the first byte comes to, with what is left of the data.
abbrev next_byte : HttpContext → Bytes → Round → Parsed
next_byte c s protocol_error = stopped c false
next_byte c s (took d n) = later 1 (byte_run d s)

byte_run_next :
    (b : ℕ) (s : Bytes) (c : HttpContext) (r : Round)
    → chunk_round c.chunk_state b (b ∷ []) c ≡ r
    → c.body_complete ≡ false
    → byte_run c (b ∷ s) ≡ next_byte c s r
unfolding byte_run
byte_run_next b s c protocol_error e more = ground arith
byte_run_next b s c (took d n) e more = ground arith

append_step :
    (s t : Bytes) (c : HttpContext) (r : Round)
    → ((d : HttpContext) → byte_run d (s ++ t) ≡ then_bytes (byte_run d s) t)
    → next_byte c (s ++ t) r ≡ then_bytes (next_byte c s r) t
append_step s t c protocol_error ih = refl
append_step s t c (took d n) ih = ap (later 1) (ih d) ∙ sym (then_bytes-later 1 (byte_run d s) t)

pub byte_run-append :
    (s t : Bytes) (c : HttpContext) → byte_run c (s ++ t) ≡ then_bytes (byte_run c s) t
byte_run-append [] t c = unfold byte_run in sym (later_zero (byte_run c t))
byte_run-append (b ∷ s) t c = elim (Bool-cases c.body_complete) [
  | inl done ↦
      byte_run_done (b ∷ s ++ t) c done
      ∙ sym (byte_run_done t c done)
      ∙ sym (later_zero (byte_run c t))
      ∙ ap (λ p. then_bytes p t) (sym (byte_run_done (b ∷ s) c done))
  | inr more ↦
      let r = chunk_round c.chunk_state b (b ∷ []) c in
      byte_run_next b (s ++ t) c r refl more
      ∙ append_step s t c r (byte_run-append s t)
      ∙ ap (λ p. then_bytes p t) (sym (byte_run_next b s c r refl more))
]

next_byte-IsReady :
    (s : Bytes) (c : HttpContext) (r : Round)
    → IsReady c
    → Kept r
    → ((d : HttpContext) → IsReady d → IsReady (byte_run d s).ctx)
    → IsReady (next_byte c s r).ctx
next_byte-IsReady s c protocol_error h k ih = h
next_byte-IsReady s c (took d n) h k ih = ih d k

pub byte_run-IsReady : (s : Bytes) (c : HttpContext) → IsReady c → IsReady (byte_run c s).ctx
byte_run-IsReady [] c h = unfold byte_run in h
byte_run-IsReady (b ∷ s) c h = elim (Bool-cases c.body_complete) [
  | inl done ↦ subst (λ p. IsReady p.ctx) (sym (byte_run_done (b ∷ s) c done)) h
  | inr more ↦
      let r = chunk_round c.chunk_state b (b ∷ []) c in
      subst (λ p. IsReady p.ctx) (sym (byte_run_next b s c r refl more))
        (next_byte-IsReady s c r h (chunk_round-Kept c.chunk_state b [] c refl h)
          (byte_run-IsReady s))
]

-- The pieces one after the other, each call on what the one before left; an error ends it.
abbrev pub feed_piece : Bytes → Parsed → Option Parsed
feed_piece s p =
    if p.ok
    then (elim (parse_chunked_block p.ctx s) [ none ↦ none | some q ↦ some (later p.consumed q) ])
    else some p

abbrev pub feed : Option Parsed → List Bytes → Option Parsed
feed none pieces = none
feed (some p) [] = some p
feed (some p) (s ∷ pieces) = feed (feed_piece s p) pieces

abbrev pub join : List Bytes → Bytes
join [] = []
join (s ∷ pieces) = s ++ join pieces

feed_piece_lem : (s : Bytes) (p : Parsed) → IsReady p.ctx → feed_piece s p ≡ some (then_bytes p s)
feed_piece_lem s p h = ground (arith, parse_chunked_block-byte_run p.ctx s h)

then_bytes_none :
    (c : HttpContext) (n : ℕ) (ok : Bool)
    → then_bytes (record { ctx = c; consumed = n; ok = ok }) []
      ≡ record { ctx = c; consumed = n; ok = ok }
unfolding byte_run
then_bytes_none c n false = refl
then_bytes_none c n true = ground arith

then_bytes-append :
    (s t : Bytes) (p : Parsed) → then_bytes p (s ++ t) ≡ then_bytes (then_bytes p s) t
then_bytes-append s t p =
    ground (arith, byte_run-append s t p.ctx, then_bytes-later p.consumed (byte_run p.ctx s) t)

then_bytes-IsReady : (s : Bytes) (p : Parsed) → IsReady p.ctx → IsReady (then_bytes p s).ctx
then_bytes-IsReady s p h = ground (arith, byte_run-IsReady s p.ctx h)

feed_lem :
    (pieces : List Bytes) (p : Parsed)
    → IsReady p.ctx
    → feed (some p) pieces ≡ some (then_bytes p (join pieces))
feed_lem [] p h = ap some (sym (then_bytes_none p.ctx p.consumed p.ok))
feed_lem (s ∷ pieces) p h =
    ap (λ o. feed o pieces) (feed_piece_lem s p h)
    ∙ feed_lem pieces (then_bytes p s) (then_bytes-IsReady s p h)
    ∙ ap some (sym (then_bytes-append s (join pieces) p))

-- `ParseChunkedBlock` may be given a body in chunks in any pieces, in any state in which a chunk
-- that is being read has bytes to come: the calls on the pieces, up to one that finds an error,
-- leave the same context as one call on the whole, count the same bytes and find the same error.
pub parse_chunked_block-fragments :
    (c : HttpContext) (pieces : List Bytes)
    → IsReady c
    → feed (some (stopped c true)) pieces ≡ parse_chunked_block c (join pieces)
parse_chunked_block-fragments c pieces h =
    feed_lem pieces (stopped c true) h
    ∙ ap some (later_zero (byte_run c (join pieces)))
    ∙ sym (parse_chunked_block-byte_run c (join pieces) h)
