-- ===== src/Http/Request/Params.antt =====
-- `ExtractPathParams` reads back the parameters of a path that was made from a pattern.
use c_cloud_storage.Prelude.{
  suc, ◌≡◌, refl, ap, ◌∙◌, Bool, true, false, ◌||◌, List, [], ◌∷◌, map, length, arith, Bytes, ◌==◌,
  ==_refl, if◌then◌else◌, eqb, eqb_iff, eqb_refl, is_empty,
}
use c_cloud_storage.Prelude.Split.{Lacks, AllLack, render_path, segments-render_path, NoneEmpty}
use c_cloud_storage.Prelude.Dict.{lookup-insert}
use c_cloud_storage.Http.Request.{HttpRequest, set_path_param, get_path_param}
use c_cloud_storage.Http.Request.Path.{split_path, match_segments, extract_path_params}

-- A segment of a route: fixed, or a parameter with its name.
pub data Segment : Type 0 where
  fixed param : Bytes → Segment

abbrev pub pattern_text : Segment → Bytes
pattern_text (fixed s) = s
pattern_text (param k) = b':' ∷ k

abbrev pub path_text : (Bytes → Bytes) → Segment → Bytes
path_text f (fixed s) = s
path_text f (param k) = f k

abbrev starts_with_colon : Bytes → Bool
starts_with_colon [] = false
starts_with_colon (c ∷ _) = c == b':'

-- No segment is empty or holds a slash, and no fixed one looks like a parameter.
abbrev pub IsRoute : (Bytes → Bytes) → List Segment → Type 0
IsRoute f [] = Unit {0}
IsRoute f (fixed s ∷ t) =
    (is_empty s ≡ false) × (starts_with_colon s ≡ false) × Lacks b'/' s × IsRoute f t
IsRoute f (param k ∷ t) = (is_empty (f k) ≡ false) × Lacks b'/' k × Lacks b'/' (f k) × IsRoute f t

abbrev pub has_param : Bytes → List Segment → Bool
has_param k [] = false
has_param k (fixed _ ∷ t) = has_param k t
has_param k (param j ∷ t) = eqb j k || has_param k t

-- The request with the parameters of a route set.
abbrev bind : (Bytes → Bytes) → List Segment → HttpRequest → HttpRequest
bind f [] r = r
bind f (fixed _ ∷ t) r = bind f t r
bind f (param k ∷ t) r = bind f t (set_path_param k (f k) r)

get_path_param-set_path_param :
    (j k v : Bytes) (r : HttpRequest)
    → get_path_param k (set_path_param j v r) ≡ (if eqb j k then v else get_path_param k r)
unfolding get_path_param set_path_param
get_path_param-set_path_param j k v r = ground (arith, lookup-insert j k v r.path_params)

get_path_param-bind :
    (f : Bytes → Bytes) (k : Bytes) (t : List Segment) (r : HttpRequest)
    → get_path_param k (bind f t r) ≡ (if has_param k t then f k else get_path_param k r)
get_path_param-bind f k [] r = refl
get_path_param-bind f k (fixed _ ∷ t) r = get_path_param-bind f k t r
get_path_param-bind f k (param j ∷ t) r = ground (
  arith,
  eqb_iff j k,
  get_path_param-bind f k t (set_path_param j (f j) r),
  get_path_param-set_path_param j k (f j) r,
)

match_fixed :
    (s : Bytes) (ps segs : List Bytes) (r : HttpRequest)
    → is_empty s ≡ false
    → starts_with_colon s ≡ false
    → match_segments (s ∷ ps) (s ∷ segs) r ≡ match_segments ps segs r
unfolding match_segments
match_fixed [] ps segs r h k = cc
match_fixed (c ∷ s) ps segs r h k = rw (k, eqb_refl (c ∷ s))

match_param :
    (k v : Bytes) (ps segs : List Bytes) (r : HttpRequest)
    → match_segments ((b':' ∷ k) ∷ ps) (v ∷ segs) r ≡ match_segments ps segs (set_path_param k v r)
unfolding match_segments
match_param k v ps segs r = refl

match_segments-bind :
    (f : Bytes → Bytes) (t : List Segment) (r : HttpRequest)
    → IsRoute f t
    → match_segments (map pattern_text t) (map (path_text f) t) r ≡ (bind f t r, true)
match_segments-bind f [] r h = unfold match_segments in refl
match_segments-bind f (fixed s ∷ t) r (ne, nc, l, h) =
    match_fixed s _ _ r ne nc ∙ match_segments-bind f t r h
match_segments-bind f (param k ∷ t) r (ne, lk, lv, h) =
    match_param k (f k) _ _ r ∙ match_segments-bind f t _ h

split_path-render_path :
    (ss : List Bytes) → NoneEmpty ss → AllLack b'/' ss → split_path (render_path ss) ≡ ss
split_path-render_path ss h a = unfold split_path in segments-render_path ss h a

route_texts :
    (f : Bytes → Bytes) (t : List Segment)
    → IsRoute f t
    → NoneEmpty (map pattern_text t)
      × AllLack b'/' (map pattern_text t)
      × NoneEmpty (map (path_text f) t)
      × AllLack b'/' (map (path_text f) t)
      × (length (map pattern_text t) ≡ length (map (path_text f) t))
route_texts f [] h = (tt, tt, tt, tt, refl)
route_texts f (fixed s ∷ t) (ne, nc, l, h) =
    let (a, b, c, d, e) = route_texts f t h in ((ne, a), (l, b), (ne, c), (l, d), ap suc e)
route_texts f (param k ∷ t) (ne, lk, lv, h) =
    let (a, b, c, d, e) = route_texts f t h in
    ((refl, a), ((refl, lk), b), (ne, c), (lv, d), ap suc e)

-- A path that fills the parameters of a route with values matches the route's pattern, and the
-- request then has, for each parameter of the route, its value, and for any other what it had.
-- Values and fixed segments are not empty, no segment holds a slash, and no fixed one begins with
-- a colon.
pub extract_path_params_lem :
    (f : Bytes → Bytes) (t : List Segment) (k : Bytes) (r : HttpRequest)
    → IsRoute f t
    → r.url ≡ render_path (map (path_text f) t)
    → let (r', ok) = extract_path_params (render_path (map pattern_text t)) r in
      (ok ≡ true) × (get_path_param k r' ≡ (if has_param k t then f k else get_path_param k r))
unfolding extract_path_params
extract_path_params_lem f t k r h e =
    let (a, b, c, d, same) = route_texts f t h in
    rw
      (
        ap split_path e ∙ split_path-render_path (map (path_text f) t) c d,
        split_path-render_path (map pattern_text t) a b,
        same,
        ==_refl (length (map (path_text f) t)),
        match_segments-bind f t r h,
      )
      (refl, get_path_param-bind f k t r)
