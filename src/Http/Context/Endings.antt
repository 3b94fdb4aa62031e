-- ===== src/Http/Context/Endings.antt =====
-- `ParseRequest` ends, unless it waits for a body that is not there.
use c_cloud_storage.Prelude.{
  ℕ, zero, suc, ◌+◌, ◌≤◌, ◌<◌, ◌≡◌, refl, sym, subst, ap, ◌∙◌, Bool, true, false, ◌||◌, Option,
  none, some, length, drop, leb, ◌==◌, if◌then◌else◌, if_then, if_else, Bytes, arith, inl, inr, ◌⊎◌,
  length-drop,
}
use c_cloud_storage.Http.Request.{append_body}
use c_cloud_storage.Http.Context.{HttpContext, HttpRequestParseState, body, is_complete}
use c_cloud_storage.Http.Context.Whole.{
  Scan, Run, running, ended, scan_loop, scan_byte, scan_body, absorbed, finish, is_body, goes_on,
  next_byte, byte_at, scan_from, parse_request,
}

-- The body that the header announces is longer than what is left of the data.
pub record IsWaiting (input : Bytes) (s : Scan) : Type 0 where
  pub in_body : s.ctx.state ≡ body
  pub incomplete : s.ctx.body_complete ≡ false
  pub plain : s.ctx.chunked ≡ false
  pub short : s.ctx.received_body_bytes + length (drop s.end input) < s.ctx.content_length
  pub inside : s.end ≤ length input

goes_on-IsWaiting : (input : Bytes) (s : Scan) → IsWaiting input s → goes_on input s ≡ true
goes_on-IsWaiting input s w = ground (arith, w.in_body, w.inside)

still_short :
    (n : ℕ) (c : HttpContext)
    → c.body_complete ≡ false
    → c.chunked ≡ false
    → c.received_body_bytes + n < c.content_length
    → finish (absorbed n c) ≡ absorbed n c
still_short n c open_body plain short =
    if_else {b = c.body_complete || (c.chunked || leb c.content_length (c.received_body_bytes + n))}
      _ _ (ground (arith, open_body, plain, short))

nothing_left : (input : Bytes) → length (drop (length input) input) ≡ 0
nothing_left input = omega (arith, length-drop (length input) input)

scan_goes_on :
    (n : ℕ) (input : Bytes) (c : HttpContext) (begin colon : ℕ)
    → c.state ≡ body
    → c.body_complete ≡ false
    → c.chunked ≡ false
    → c.received_body_bytes + n < c.content_length
    → IsWaiting input
        (record { ctx = finish (absorbed n c); begin = begin; colon = colon; end = length input })
scan_goes_on n input c begin colon here open_body plain short =
    subst
      (λ d. IsWaiting input (record { ctx = d; begin = begin; colon = colon; end = length input }))
      (sym (still_short n c open_body plain short))
      (record {
        in_body = here;
        incomplete = ground (arith, open_body, plain, short);
        plain = plain;
        short = omega (arith, nothing_left input, short);
        inside = omega arith;
      })

scan_body-IsWaiting :
    (input : Bytes) (s : Scan) → IsWaiting input s → IsWaiting input (scan_body input s)
unfolding scan_body
scan_body-IsWaiting input s w = by_length (length (drop s.end input) == 0)
  where
    n : ℕ
    n = length (drop s.end input)

    by_length :
        (b : Bool)
        → IsWaiting input (record s {
          ctx = finish (
              absorbed n (
                if b
                then s.ctx
                else record s.ctx { request = append_body (drop s.end input) s.ctx.request }));
          end = length input;
        })
    by_length true =
        scan_goes_on n input s.ctx s.begin s.colon w.in_body w.incomplete w.plain w.short
    by_length false =
        scan_goes_on n input
          (record s.ctx { request = append_body (drop s.end input) s.ctx.request }) s.begin s.colon
          w.in_body w.incomplete w.plain w.short

one_round :
    (fuel : ℕ) (input : Bytes) (s : Scan)
    → goes_on input s ≡ true
    → is_body s.ctx.state ≡ true
    → scan_loop (suc fuel) input s ≡ scan_loop fuel input (scan_body input s)
unfolding scan_loop
one_round fuel input s on here = if_then _ _ on ∙ if_then _ _ here

-- When less of a body has come than the header announces, `ParseRequest` never ends: it takes what
-- is there and then goes round in its loop without a byte to read.
parse_request_endless :
    (fuel : ℕ) (input : Bytes) (s : Scan)
    → IsWaiting input s
    → (t : Scan) × (scan_loop fuel input s ≡ running t) × IsWaiting input t
parse_request_endless zero input s w = (s, unfold scan_loop in refl, w)
parse_request_endless (suc fuel) input s w =
    let (t, e, v) =
      parse_request_endless fuel input (scan_body input s) (scan_body-IsWaiting input s w) in
    (t, one_round fuel input s (goes_on-IsWaiting input s w) (ap is_body w.in_body) ∙ e, v)

body_state : (st : HttpRequestParseState) → is_body st ≡ true → st ≡ body
body_state body h = refl
body_state _ h = ground arith

abbrev scan_of : Scan → Run → Scan
scan_of s (running t) = t
scan_of s _ = s

abbrev is_running : Run → Bool
is_running (running t) = true
is_running _ = false

-- A body is complete, or the data ends before it.
body_round :
    (input : Bytes) (s : Scan)
    → is_body s.ctx.state ≡ true
    → s.end ≤ length input
    → IsWaiting input s ⊎ (is_complete (scan_body input s).ctx.state ≡ true)
unfolding scan_body
body_round input s here inside =
    at
      (s.ctx.body_complete
        || (s.ctx.chunked
            || leb s.ctx.content_length (s.ctx.received_body_bytes + length (drop s.end input))))
      refl
  where
    n : ℕ
    n = length (drop s.end input)

    closes :
        (b : Bool)
        → (s.ctx.body_complete
            || (s.ctx.chunked || leb s.ctx.content_length (s.ctx.received_body_bytes + n)))
          ≡ true
        → is_complete
            (finish (
              absorbed n (
                if b then s.ctx else record s.ctx {
                  request = append_body (drop s.end input) s.ctx.request;
                }))).state
          ≡ true
    closes true e = ap (λ (c : HttpContext). is_complete c.state) (if_then _ _ e)
    closes false e = ap (λ (c : HttpContext). is_complete c.state) (if_then _ _ e)

    at :
        (b : Bool)
        → (s.ctx.body_complete
            || (s.ctx.chunked || leb s.ctx.content_length (s.ctx.received_body_bytes + n)))
          ≡ b
        → IsWaiting input s ⊎ (is_complete (scan_body input s).ctx.state ≡ true)
    at true e = inr (closes (n == 0) e)
    at false e = inl (record {
      in_body = body_state s.ctx.state here;
      incomplete = ground (arith, e);
      plain = ground (arith, e);
      short = ground (arith, e);
      inside = inside;
    })

completed :
    (fuel : ℕ) (input : Bytes) (s : Scan)
    → is_complete s.ctx.state ≡ true
    → scan_loop (suc fuel) input s ≡ ended s
unfolding scan_loop
completed fuel input s h = if_else {b = goes_on input s} _ _ (ground (arith, h))

in_body_ends :
    (fuel : ℕ) (input : Bytes) (s t : Scan)
    → is_body s.ctx.state ≡ true
    → s.end ≤ length input
    → 0 < fuel
    → scan_loop fuel input (scan_body input s) ≡ running t
    → IsWaiting input t
in_body_ends zero input s t here inside some_fuel e = absurd (omega arith)
in_body_ends (suc fuel) input s t here inside some_fuel e = elim (body_round input s here inside) [
  | inl w ↦
      let (u, f, v) =
        parse_request_endless (suc fuel) input (scan_body input s)
          (scan_body-IsWaiting input s w) in
      subst (IsWaiting input) (ap (scan_of s) (sym f ∙ e)) v
  | inr full ↦
      absurd (bool_clash (ap is_running (sym (completed fuel input (scan_body input s) full) ∙ e)))
]
  where
    bool_clash : false ≡ true → ⊥
    bool_clash h = ground (arith, h)

round_lem :
    (fuel : ℕ) (input : Bytes) (s t : Scan)
    → ((r : Scan)
        → scan_loop fuel input r ≡ running t
        → length input + 1 < r.end + fuel
        → r.end ≤ length input + 1
        → IsWaiting input t)
    → scan_loop (suc fuel) input s ≡ running t
    → length input + 1 < s.end + suc fuel
    → IsWaiting input t
unfolding scan_loop
round_lem fuel input s t ih e big = at_guard (goes_on input s) refl e
  where
    after : Option Scan → Run
    after o = next_byte (scan_loop fuel input) s.end o

    at_byte : (o : Option Scan) → s.end ≤ length input → after o ≡ running t → IsWaiting input t
    at_byte none small f = absurd (ground (arith, ap is_running f))
    at_byte (some r) small f = ih (record r { end = s.end + 1 }) f (omega arith) (omega arith)

    at_state :
        (b : Bool)
        → is_body s.ctx.state ≡ b
        → s.end ≤ length input
        → (if b
            then scan_loop fuel input (scan_body input s)
            else after (scan_byte input s.ctx.state (byte_at input s.end) s))
          ≡ running t
        → IsWaiting input t
    at_state true here small f = in_body_ends fuel input s t here small (omega arith) f
    at_state false here small f =
        at_byte (scan_byte input s.ctx.state (byte_at input s.end) s) small f

    at_guard :
        (b : Bool)
        → goes_on input s ≡ b
        → (if b
            then (if is_body s.ctx.state
                then scan_loop fuel input (scan_body input s)
                else after (scan_byte input s.ctx.state (byte_at input s.end) s))
            else ended s)
          ≡ running t
        → IsWaiting input t
    at_guard true on f = at_state (is_body s.ctx.state) refl (ground (arith, on)) f
    at_guard false on f = absurd (ground (arith, ap is_running f))

running_lem :
    (fuel : ℕ) (input : Bytes) (s t : Scan)
    → scan_loop fuel input s ≡ running t
    → length input + 1 < s.end + fuel
    → s.end ≤ length input + 1
    → IsWaiting input t
running_lem zero input s t e big inside = absurd (omega arith)
running_lem (suc fuel) input s t e big inside =
    round_lem fuel input s t (λ r. running_lem fuel input r t) e big

-- `ParseRequest` comes to an end, unless the request has a body of which less has come than the
-- header announces.
parse_request_ends :
    (c : HttpContext) (input : Bytes) (t : Scan)
    → parse_request c input ≡ running t
    → IsWaiting input t
unfolding parse_request
parse_request_ends c input t e =
    running_lem (length input + 2) input (scan_from c) t e (omega arith) (omega arith)
