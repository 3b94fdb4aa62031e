-- ===== src/Http/Context/Progress.antt =====
-- The loops of the parser end, and never take more bytes than there are.
use c_cloud_storage.Prelude.{
  ℕ, zero, suc, ◌+◌, ◌-◌, ◌*◌, ◌≤◌, ◌<◌, ◌≡◌, refl, Bool, true, false, Option, none, some, [], ◌∷◌,
  length, drop, take, arith, Bytes, if◌then◌else◌, Bool-cases, Option-cases, inl, inr, get_elem?-lt,
  get_elem?, length-drop, find_byte,
}
use c_cloud_storage.Http.Context.{
  HttpContext, Parsed, ChunkState, size, size_cr, in_data, data_cr, data_lf, trailers, last_cr,
}
use c_cloud_storage.Http.Context.Headers.{
  Line, partial_line, refused, taken, refused_text, begin_method, text_result, line_text,
  whole_line, next_line, parse_lines,
}
use c_cloud_storage.Http.Context.Body.{
  Round, took, protocol_error, chunk_round, chunk_loop, chunk_fuel, parse_chunked_block,
  parse_body_block,
}
use c_cloud_storage.Http.Context.Incremental.{parse_body, parse_incremental, shift}

-- What a line takes is there.
abbrev pub Advances : Bytes → Line → Type 0
Advances rest (taken d n) = (0 < n) × (n ≤ length rest)
Advances rest (refused_text d n) = n ≤ length rest
Advances rest _ = Unit {0}

text_result-Advances :
    (rest : Bytes) (n : ℕ) (p : HttpContext × Bool)
    → 0 < n
    → n ≤ length rest
    → Advances rest (text_result n p)
text_result-Advances rest n (c, true) h k = (h, k)
text_result-Advances rest n (c, false) h k = k

whole_line-Advances :
    (rest : Bytes) (len : ℕ) (c : HttpContext)
    → len + 1 < length rest
    → Advances rest (whole_line rest len c)
unfolding whole_line
whole_line-Advances rest len c h = ground (
  arith,
  text_result-Advances rest (len + 2) (
      line_text (take len rest)
        (record c { header_bytes = c.header_bytes + (len + 2); state = begin_method c.state })),
)

pub next_line-Advances : (rest : Bytes) (c : HttpContext) → Advances rest (next_line rest c)
unfolding next_line
next_line-Advances rest c = elim (Option-cases (find_byte 13 rest)) [
  | inl e ↦ rw (e, next_line) tt
  | inr (len, e) ↦ elim (Option-cases (get_elem? rest (len + 1))) [
    | inl f ↦ ground (arith, e, f)
    | inr (lf, f) ↦
        ground (arith, e, f, whole_line-Advances rest len c (get_elem?-lt rest (len + 1) f))
  ]
]

abbrev pub IsWithin : ℕ → ℕ → Option Parsed → Type 0
IsWithin from room none = ⊥
IsWithin from room (some p) = (from ≤ p.consumed) × (p.consumed ≤ from + room)

IsWithin-mono :
    (o : Option Parsed) (from room from' room' : ℕ)
    → from' ≤ from
    → from + room ≤ from' + room'
    → IsWithin from room o
    → IsWithin from' room' o
IsWithin-mono none from room from' room' h k w = w
IsWithin-mono (some p) from room from' room' h k w = omega arith

lines_step :
    (fuel : ℕ) (c : HttpContext) (rest : Bytes) (consumed : ℕ) (l : Line)
    → next_line rest c ≡ l
    → c.headers_complete ≡ false
    → Advances rest l
    → ((d : HttpContext) (n : ℕ)
        → (0 < n) × (n ≤ length rest)
        → IsWithin
            (consumed + n)
            (length (drop n rest))
            (parse_lines fuel d (drop n rest) (consumed + n)))
    → IsWithin consumed (length rest) (parse_lines (suc fuel) c rest consumed)
unfolding parse_lines
lines_step fuel c rest consumed partial_line e going a ih = rw (e, going, parse_lines) (omega arith)
lines_step fuel c rest consumed (refused d) e going a ih = rw (e, going, parse_lines) (omega arith)
lines_step fuel c rest consumed (refused_text d n) e going a ih =
    rw (e, going, parse_lines) (omega arith)
lines_step fuel c rest consumed (taken d n) e going a ih =
    rw (e, going, parse_lines)
      (IsWithin-mono _ (consumed + n) (length (drop n rest)) consumed (length rest) (omega arith)
        (omega (arith, length-drop n rest)) (ih d n a))

pub parse_lines-IsWithin :
    (fuel : ℕ) (c : HttpContext) (rest : Bytes) (consumed : ℕ)
    → length rest < fuel
    → IsWithin consumed (length rest) (parse_lines fuel c rest consumed)
parse_lines-IsWithin zero c rest consumed h = absurd (omega arith)
parse_lines-IsWithin (suc fuel) c rest consumed h = elim (Bool-cases c.headers_complete) [
  | inl done ↦ unfold parse_lines in rw (done, parse_lines) (omega arith)
  | inr going ↦
      lines_step fuel c rest consumed (next_line rest c) refl going (next_line-Advances rest c)
        λ d n k.
          parse_lines-IsWithin fuel d (drop n rest) (consumed + n)
            (omega (arith, length-drop n rest))
]

abbrev pub weight : ChunkState → ℕ
weight in_data = 1
weight _ = 0

-- Each round takes bytes, or leaves a chunk that has none to come.
abbrev pub Descends : Bytes → ChunkState → Round → Type 0
Descends rest st protocol_error = Unit {0}
Descends rest st (took d n) =
    (n ≤ length rest) × (2 * (length rest - n) + weight d.chunk_state < 2 * length rest + weight st)

pub chunk_round-Descends :
    (st : ChunkState) (b : ℕ) (s : Bytes) (c : HttpContext)
    → c.chunk_state ≡ st
    → Descends (b ∷ s) st (chunk_round st b (b ∷ s) c)
unfolding chunk_round
chunk_round-Descends size b s c e = ground arith
chunk_round-Descends size_cr b s c e = ground arith
chunk_round-Descends in_data b s c e = ground arith
chunk_round-Descends data_cr b s c e = ground arith
chunk_round-Descends data_lf b s c e = ground arith
chunk_round-Descends trailers b s c e = ground arith
chunk_round-Descends last_cr b s c e = ground arith

chunk_step :
    (fuel : ℕ) (c : HttpContext) (b : ℕ) (s : Bytes) (consumed : ℕ) (r : Round)
    → chunk_round c.chunk_state b (b ∷ s) c ≡ r
    → c.body_complete ≡ false
    → Descends (b ∷ s) c.chunk_state r
    → ((d : HttpContext) (n : ℕ)
        → Descends (b ∷ s) c.chunk_state (took d n)
        → IsWithin
            (consumed + n)
            (length (drop n (b ∷ s)))
            (chunk_loop fuel d (drop n (b ∷ s)) (consumed + n)))
    → IsWithin consumed (length (b ∷ s)) (chunk_loop (suc fuel) c (b ∷ s) consumed)
unfolding chunk_loop
chunk_step fuel c b s consumed protocol_error e more a ih = rw (e, more, chunk_loop) (omega arith)
chunk_step fuel c b s consumed (took d n) e more a ih =
    rw (e, more, chunk_loop)
      (IsWithin-mono _ (consumed + n) (length (drop n (b ∷ s))) consumed (length (b ∷ s))
        (omega arith) (omega (arith, length-drop n (b ∷ s))) (ih d n a))

chunk_loop-IsWithin :
    (fuel : ℕ) (c : HttpContext) (rest : Bytes) (consumed : ℕ)
    → 2 * length rest + weight c.chunk_state < fuel
    → IsWithin consumed (length rest) (chunk_loop fuel c rest consumed)
chunk_loop-IsWithin zero c rest consumed h = absurd (omega arith)
chunk_loop-IsWithin (suc fuel) c [] consumed h = unfold chunk_loop in omega arith
chunk_loop-IsWithin (suc fuel) c (b ∷ s) consumed h = elim (Bool-cases c.body_complete) [
  | inl done ↦ unfold chunk_loop in rw (done, chunk_loop) (omega arith)
  | inr more ↦
      chunk_step fuel c b s consumed (chunk_round c.chunk_state b (b ∷ s) c) refl more
        (chunk_round-Descends c.chunk_state b s c refl)
        λ d n k.
          chunk_loop-IsWithin fuel d (drop n (b ∷ s)) (consumed + n)
            (omega (arith, length-drop n (b ∷ s)))
]

pub weight-le : (st : ChunkState) → weight st ≤ 1
weight-le in_data = omega arith
weight-le _ = omega arith

parse_chunked_block-IsWithin :
    (c : HttpContext) (part : Bytes) → IsWithin 0 (length part) (parse_chunked_block c part)
unfolding parse_chunked_block
parse_chunked_block-IsWithin c part =
    chunk_loop-IsWithin (chunk_fuel part) c part 0 (omega (arith, weight-le c.chunk_state))

parse_body_block-le :
    (c : HttpContext) (part : Bytes) → (parse_body_block c part).consumed ≤ length part
unfolding parse_body_block
parse_body_block-le c part = omega arith

shift_chunked :
    (p : Parsed) (room : ℕ) (o : Option Parsed)
    → IsWithin 0 room o
    → IsWithin p.consumed room (elim o [ none ↦ none | some q ↦ some (shift p q) ])
shift_chunked p room none w = w
shift_chunked p room (some q) w = ground arith

pub parse_body-IsWithin :
    (p : Parsed) (rest : Bytes) → IsWithin p.consumed (length rest) (parse_body p rest)
unfolding parse_body
parse_body-IsWithin p rest = ground (
  arith,
  shift_chunked p (length rest) (parse_chunked_block p.ctx rest)
      (parse_chunked_block-IsWithin p.ctx rest),
  parse_body_block-le p.ctx rest,
)

found :
    (ok : Bool) (p : Parsed) (part : Bytes) (o : Option Parsed)
    → p.consumed ≤ length part
    → IsWithin p.consumed (length (drop p.consumed part)) o
    → (q : Parsed) × ((if ok then o else some p) ≡ some q) × (q.consumed ≤ length part)
found false p part o h w = (p, refl, h)
found true p part none h w = absurd w
found true p part (some q) h w = (q, refl, omega (arith, length-drop p.consumed part))

-- Whatever the data and the state, the parser comes to an end within its fuel, and takes no more
-- bytes than it was given, so that the buffer can give them up.
pub parse_incremental_total :
    (c : HttpContext) (part : Bytes)
    → (p : Parsed) × (parse_incremental c part ≡ some p) × (p.consumed ≤ length part)
unfolding parse_incremental
parse_incremental_total c part = elim (Option-cases (parse_lines (length part + 1) c part 0)) [
  | inl e ↦ absurd (rw e at headed)
  | inr (p, e) ↦ rw (e, parse_incremental) (rest p (rw e at headed))
]
  where
    headed : IsWithin 0 (length part) (parse_lines (length part + 1) c part 0)
    headed = parse_lines-IsWithin (length part + 1) c part 0 (omega arith)

    rest :
        (p : Parsed)
        → IsWithin 0 (length part) (some p)
        → (q : Parsed) × ((if p.ok then parse_body p (drop p.consumed part) else some p) ≡ some q)
          × (q.consumed ≤ length part)
    rest p w =
        found p.ok p part (parse_body p (drop p.consumed part)) (omega arith)
          (parse_body-IsWithin p (drop p.consumed part))
