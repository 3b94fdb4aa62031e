-- ===== src/Http/Context/Idle.antt =====
-- A call of `ParseIncremental` that takes no byte of a header.
use c_cloud_storage.Prelude.{
  ℕ, suc, ◌+◌, ◌≤◌, ◌<◌, ◌≡◌, sym, subst, ap, ◌∙◌, Bool, true, false, Option, none, some, length,
  drop, if◌then◌else◌, Bytes, arith, length-drop,
}
use c_cloud_storage.Http.Context.{HttpContext, Parsed}
use c_cloud_storage.Http.Context.Headers.{
  Line, partial_line, refused, refused_text, taken, next_line, parse_lines,
}
use c_cloud_storage.Http.Context.Incremental.{parse_incremental, parse_body}
use c_cloud_storage.Http.Context.Progress.{
  Advances, next_line-Advances, IsWithin, parse_lines-IsWithin, parse_body-IsWithin,
}

none_taken : {n m : ℕ} {A : Type 0} → m ≡ 0 → n ≤ m → 0 < n → A
none_taken e h k = absurd (omega arith)

abbrev consumed_or : ℕ → Option Parsed → ℕ
consumed_or n none = n
consumed_or n (some p) = p.consumed

body_keeps :
    (b : Bool) (q : Parsed) (part : Bytes) (p : Parsed)
    → (if b then parse_body q part else some q) ≡ some p
    → q.consumed ≤ p.consumed
body_keeps true q part p e =
    (subst (IsWithin q.consumed (length part)) e (parse_body-IsWithin q part)).0
body_keeps false q part p e = omega (arith, ap (consumed_or 0) e)

-- Lines that took bytes are not given back by the body.
kept_bytes :
    (o : Option Parsed) (n room : ℕ) (part : Bytes) (p : Parsed)
    → IsWithin n room o
    → (elim o [
      | none ↦ none
      | some q ↦ if q.ok then parse_body q (drop q.consumed part) else some q
    ])
      ≡ some p
    → n ≤ p.consumed
kept_bytes none n room part p w e = absurd w
kept_bytes (some q) n room part p w e =
    omega (arith, body_keeps q.ok q (drop q.consumed part) p e, w.0)

line_taken :
    (fuel : ℕ) (c d : HttpContext) (rest : Bytes) (k n : ℕ)
    → next_line rest c ≡ taken d n
    → c.headers_complete ≡ false
    → parse_lines (suc fuel) c rest k ≡ parse_lines fuel d (drop n rest) (k + n)
unfolding parse_lines
line_taken fuel c d rest k n e going = ground (arith, e, going)

abbrev then_body : Bytes → Option Parsed → Option Parsed
then_body part o = elim o [
  | none ↦ none
  | some q ↦ if q.ok then parse_body q (drop q.consumed part) else some q
]

incremental_taken :
    (c d : HttpContext) (part : Bytes) (n : ℕ)
    → next_line part c ≡ taken d n
    → c.headers_complete ≡ false
    → parse_incremental c part ≡ then_body part (parse_lines (length part) d (drop n part) n)
unfolding parse_incremental
incremental_taken c d part n e going =
    ap (λ k. then_body part (parse_lines k c part 0))
      (let one : length part + 1 ≡ suc (length part) = omega arith in one)
    ∙ ap (then_body part) (line_taken (length part) c d part 0 n e going)
    ∙ ap (λ k. then_body part (parse_lines (length part) d (drop n part) k))
        (let none_before : 0 + n ≡ n = omega arith in none_before)

-- A call that takes no byte of a header and refuses nothing leaves the context as it is.
pub parse_incremental_idle :
    (l : Line) (c : HttpContext) (part : Bytes) (p : Parsed)
    → next_line part c ≡ l
    → c.headers_complete ≡ false
    → parse_incremental c part ≡ some p
    → p.consumed ≡ 0
    → p.ok ≡ true
    → p.ctx ≡ c
unfolding parse_incremental parse_lines parse_body
parse_incremental_idle partial_line c part p e going f h ok = ground (arith, e, going)
parse_incremental_idle (refused d) c part p e going f h ok = ground (arith, e, going)
parse_incremental_idle (refused_text d n) c part p e going f h ok = ground (arith, e, going)
parse_incremental_idle (taken d n) c part p e going f h ok =
    let a : Advances part (taken d n) = subst (Advances part) e (next_line-Advances part c) in
    let w =
      parse_lines-IsWithin (length part) d (drop n part) n (omega (arith, length-drop n part)) in
    none_taken h
      (kept_bytes (parse_lines (length part) d (drop n part) n) n (length (drop n part)) part p w
        (sym (incremental_taken c d part n e going) ∙ f))
      a.0
