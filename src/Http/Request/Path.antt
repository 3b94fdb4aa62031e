-- ===== src/Http/Request/Path.antt =====
-- http/HttpRequest.cpp: `ExtractPathParams`.
use c_cloud_storage.Prelude.{
  Bool, true, false, List, [], ◌∷◌, length, ◌==◌, if◌then◌else◌, Bytes, eqb,
}
use c_cloud_storage.Prelude.Split.{segments}
use c_cloud_storage.Http.Request.{HttpRequest, set_path_param}

-- The lambda `split` of `ExtractPathParams`
unfoldable pub split_path : Bytes → List Bytes
unfolding segments
split_path s = segments s

-- The loop over the segments; parameters set before a mismatch stay set.
unfoldable pub match_segments : List Bytes → List Bytes → HttpRequest → HttpRequest × Bool
unfolding eqb set_path_param
match_segments [] [] r = (r, true)
match_segments ((c ∷ key) ∷ ps) (seg ∷ segs) r =
    let bound = match_segments ps segs (set_path_param key seg r) in
    let same = match_segments ps segs r in
    if c == b':' then bound else if eqb (c ∷ key) seg then same else (r, false)
match_segments ([] ∷ ps) (seg ∷ segs) r =
    let same = match_segments ps segs r in if eqb [] seg then same else (r, false)
match_segments _ _ r = (r, false)

unfoldable pub extract_path_params : Bytes → HttpRequest → HttpRequest × Bool
unfolding split_path match_segments
extract_path_params pattern r =
    let path_segs = split_path r.url in
    let pat_segs = split_path pattern in
    if length path_segs == length pat_segs then match_segments pat_segs path_segs r else (r, false)
