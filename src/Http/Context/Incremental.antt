-- ===== src/Http/Context/Incremental.antt =====
-- http/HttpContext.cpp: `ParseIncremental`.
use c_cloud_storage.Prelude.{
  ◌+◌, ◌&&◌, not, Option, none, some, length, drop, ltb, if◌then◌else◌, Bytes,
}
use c_cloud_storage.Http.Context.{HttpContext, Parsed}
use c_cloud_storage.Http.Context.Headers.{parse_lines}
use c_cloud_storage.Http.Context.Body.{parse_body_block, parse_chunked_block}

-- The bytes that the body took are counted unless it was refused.
abbrev pub shift : Parsed → Parsed → Parsed
shift p q = record q { consumed = if q.ok then p.consumed + q.consumed else p.consumed }

-- The part of `ParseIncremental` behind the header, on what the loop over lines left.
unfoldable pub parse_body : Parsed → Bytes → Option Parsed
parse_body p rest =
    if p.ctx.headers_complete && not p.ctx.body_complete
    then (if p.ctx.chunked
        then (elim (parse_chunked_block p.ctx rest) [ none ↦ none | some q ↦ some (shift p q) ])
        else if ltb 0 p.ctx.content_length
        then some (shift p (parse_body_block p.ctx rest))
        else some p)
    else some p

unfoldable pub parse_incremental : HttpContext → Bytes → Option Parsed
parse_incremental c part = elim (parse_lines (length part + 1) c part 0) [
  | none ↦ none
  | some p ↦ if p.ok then parse_body p (drop p.consumed part) else some p
]
