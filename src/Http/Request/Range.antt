-- ===== src/Http/Request/Range.antt =====
-- http/HttpRequest.cpp: `ParseRangeHeader`.
use c_cloud_storage.Prelude.{
  ◌+◌, Bool, true, false, ◌&&◌, not, none, some, take, drop, if◌then◌else◌, Bytes, bytes, find_byte,
  starts_with, is_empty,
}
use c_cloud_storage.Prelude.Dict.{lookup}
use c_cloud_storage.Prelude.Number.{ℤ, pos, negsuc, stoll}
use c_cloud_storage.Http.Request.{HttpRequest}

-- A number of `stoll`, stored by `keep`; an exception ends the parse.
abbrev store : Bytes → HttpRequest → (ℤ → HttpRequest × Bool) → HttpRequest × Bool
store text r keep = elim (stoll text) [ none ↦ (r, false) | some n ↦ keep n ]

abbrev found : HttpRequest → HttpRequest × Bool
found r = (record r { has_range = true }, true)

abbrev range_bounds : Bytes → Bytes → HttpRequest → HttpRequest × Bool
range_bounds start end r =
    if is_empty start && not (is_empty end)
    then (let suffix = record r { range_suffix = true } in
        store end suffix (λ n. found (record suffix { range_end = n })))
    else store start r (λ a.
      let begun = record r { range_start = a } in
      if is_empty end
      then found (record begun { range_end = negsuc 0 })
      else store end begun (λ b. found (record begun { range_end = b })))

abbrev range_spec : Bytes → HttpRequest → HttpRequest × Bool
range_spec spec r = elim (find_byte b'-' spec) [
  | none ↦ (r, false)
  | some dash ↦ range_bounds (take dash spec) (drop (dash + 1) spec) r
]

unfoldable pub parse_range_header : HttpRequest → HttpRequest × Bool
unfolding lookup stoll find_byte starts_with
parse_range_header r =
    let r0 = record r {
      has_range = false;
      range_start = pos 0;
      range_end = negsuc 0;
      range_suffix = false;
    } in
    elim (lookup (bytes "Range") r.headers) [
      | none ↦ (r0, false)
      | some val ↦
          if starts_with (bytes "bytes=") val then range_spec (drop 6 val) r0 else (r0, false)
    ]
