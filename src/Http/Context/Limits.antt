-- ===== src/Http/Context/Limits.antt =====
-- The limits on the header. `ResetContextStatus` leaves the count of header bytes as it is.
use c_cloud_storage.Prelude.{
  ℕ, zero, suc, ◌+◌, ◌≤◌, ◌<◌, ◌≡◌, refl, ◌∙◌, false, some, ◌∷◌, ◌++◌, length, arith, Bytes,
  get_elem?-append,
}
use c_cloud_storage.Prelude.Split.{Lacks, find_byte_here}
use c_cloud_storage.Http.Context.{HttpContext, invalid_header, reset_context_status}
use c_cloud_storage.Http.Context.Headers.{refused, whole_line, next_line, parse_lines}
use c_cloud_storage.Http.Context.Incremental.{parse_incremental}

next_line-append :
    (line rest : Bytes) (c : HttpContext)
    → Lacks 13 line
    → next_line (line ++ 13 ∷ 10 ∷ rest) c ≡ whole_line (line ++ 13 ∷ 10 ∷ rest) (length line) c
unfolding next_line
next_line-append line rest c h =
    rw (find_byte_here 13 line (10 ∷ rest) h, get_elem?-append line rest 13 10, next_line) refl

-- A context that refuses the header.
abbrev pub over_limit : ℕ → HttpContext → HttpContext
over_limit n c = record c { header_bytes = c.header_bytes + n; state = invalid_header }

whole_line_over :
    (text : Bytes) (len : ℕ) (c : HttpContext)
    → len ≤ c.limits.max_header_line_len
    → c.limits.max_header_bytes < c.header_bytes + (len + 2)
    → whole_line text len c ≡ refused (over_limit (len + 2) c)
unfolding whole_line
whole_line_over text len c h k = ground arith

parse_lines-refused :
    (fuel : ℕ) (c d : HttpContext) (text : Bytes)
    → 0 < fuel
    → c.headers_complete ≡ false
    → next_line text c ≡ refused d
    → parse_lines fuel c text 0 ≡ some (record { ctx = d; consumed = 0; ok = false })
unfolding parse_lines
parse_lines-refused zero c d text h going e = absurd (omega arith)
parse_lines-refused (suc fuel) c d text h going e = ground (arith, e)

-- A line of a header that brings the count of header bytes over its limit is refused, and none of
-- it is consumed.
refused_line :
    (line rest : Bytes) (c : HttpContext)
    → c.headers_complete ≡ false
    → Lacks 13 line
    → length line ≤ c.limits.max_header_line_len
    → c.limits.max_header_bytes < c.header_bytes + (length line + 2)
    → parse_incremental c (line ++ 13 ∷ 10 ∷ rest)
      ≡ some (record { ctx = over_limit (length line + 2) c; consumed = 0; ok = false })
unfolding parse_incremental
refused_line line rest c going l h k =
    rw
      (
        parse_lines-refused (length (line ++ 13 ∷ 10 ∷ rest) + 1) c (over_limit (length line + 2) c)
            (line ++ 13 ∷ 10 ∷ rest) (omega arith) going
            (next_line-append line rest c l ∙ whole_line_over _ (length line) c h k),
        parse_incremental,
      )
      refl

-- The count goes on over the requests of a connection: right after `ResetContextStatus`, which
-- starts the next request, a first line that is within the limit for one line is refused if it
-- brings the count over the limit for a header, and none of it is consumed.
reset_context_status-refused :
    (c : HttpContext) (line rest : Bytes)
    → Lacks 13 line
    → length line ≤ c.limits.max_header_line_len
    → c.limits.max_header_bytes < c.header_bytes + (length line + 2)
    → parse_incremental (reset_context_status c) (line ++ 13 ∷ 10 ∷ rest)
      ≡ some (record {
        ctx = over_limit (length line + 2) (reset_context_status c);
        consumed = 0;
        ok = false;
      })
unfolding reset_context_status
reset_context_status-refused c line rest l h k =
    refused_line line rest (reset_context_status c) refl l h k
