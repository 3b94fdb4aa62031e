-- ===== src/Http/Request/Tests.antt =====
-- Runs of the request's methods, and its theorems at concrete inputs.
use c_cloud_storage.Prelude.{
  ◌≡◌, refl, Bool, true, false, List, [], ◌∷◌, ◌++◌, map, arith, Bytes, bytes, if◌then◌else◌,
}
use c_cloud_storage.Prelude.Split.{render_path}
use c_cloud_storage.Prelude.Number.{pos, negsuc}
use c_cloud_storage.Http.Request
use c_cloud_storage.Http.Request.{
  HttpRequest, set_url, get_query_values, get_path_param, add_header, url_decode, add_pairs,
}
use c_cloud_storage.Http.Request.Path.{extract_path_params}
use c_cloud_storage.Http.Request.Range.{parse_range_header}
use c_cloud_storage.Http.Request.Query.{Param, format_query, values, set_url-format_query}
use c_cloud_storage.Http.Request.Params.{
  Segment, fixed, param, pattern_text, has_param, extract_path_params_lem,
}

abbrev params : List Param
params = (bytes "q", bytes "x&y=z") ∷ (bytes "page", bytes "2") ∷ (bytes "q", []) ∷ []

set_url-format_query_example :
    ((set_url (bytes "/files" ++ b'?' ∷ format_query params) Request.create).url ≡ bytes "/files")
    × (get_query_values
          (bytes "q")
          (set_url (bytes "/files" ++ b'?' ∷ format_query params) Request.create)
        ≡ values (bytes "q") params)
set_url-format_query_example =
    set_url-format_query (bytes "/files") (bytes "q") params Request.create (ground arith)
      (ground arith)

abbrev share_route : List Segment
share_route = fixed (bytes "share") ∷ fixed (bytes "download") ∷ param (bytes "code") ∷ []

abbrev code : Bytes → Bytes
code k = bytes "8f3a"

abbrev share_request : HttpRequest
share_request = record Request.create { url = bytes "/share/download/8f3a" }

extract_path_params_lem_example :
    let (r', ok) = extract_path_params (render_path (map pattern_text share_route)) share_request in
    (ok ≡ true)
    × (get_path_param (bytes "code") r' ≡ (
        if has_param (bytes "code") share_route
        then bytes "8f3a"
        else get_path_param (bytes "code") share_request))
extract_path_params_lem_example =
    extract_path_params_lem code share_route (bytes "code") share_request (ground arith) refl

abbrev ranged : Bytes → HttpRequest × Bool
ranged text = parse_range_header (add_header (bytes "Range") text Request.create)

ranges :
    ((ranged (bytes "bytes=5-9")).0.range_start ≡ pos 5)
    × ((ranged (bytes "bytes=5-9")).0.range_end ≡ pos 9)
    × ((ranged (bytes "bytes=5-")).0.range_end ≡ negsuc 0)
    × ((ranged (bytes "bytes=-7")).0.range_suffix ≡ true)
    × ((ranged (bytes "bytes=x-7")).1 ≡ false)
unfolding parse_range_header add_header
ranges = (refl, refl, refl, refl, refl)
