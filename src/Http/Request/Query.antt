-- ===== src/Http/Request/Query.antt =====
-- `SetUrl` and `ParseQueryString` read back a query string that was written by a formatter.
use c_cloud_storage.Prelude.{
  ℕ, ◌+◌, ◌≡◌, refl, sym, ap, ◌∙◌, Bool, true, false, ◌||◌, List, [], ◌∷◌, ◌++◌, length, arith,
  Bytes, ◌==◌, if◌then◌else◌, Bool-cases, inl, inr, eqb, is_empty, append-nil, append_assoc,
  take-append_length, drop-append_ge, eqb_iff,
}
use c_cloud_storage.Prelude.Split.{
  Lacks, Lacks-append, pieces, pieces_join, pieces_last, find_byte_here,
}
use c_cloud_storage.Prelude.Dict.{lookup-insert}
use c_cloud_storage.Http.Request.{
  HttpRequest, add_query_param, add_pair, add_pairs, parse_query_string, set_url, get_query_values,
}
use c_cloud_storage.Http.Request.Decode.{IsBytes, url_encode, url_decode-url_encode}

abbrev pub Param : Type 0
Param = Bytes × Bytes

abbrev format_param : Param → Bytes
format_param (k, v) = url_encode k ++ (b'=' ∷ url_encode v)

abbrev pub format_query : List Param → Bytes
format_query [] = []
format_query (p ∷ []) = format_param p
format_query (p ∷ q ∷ ps) = format_param p ++ (b'&' ∷ format_query (q ∷ ps))

-- Keys are not empty, and all is bytes.
abbrev pub AreParams : List Param → Type 0
AreParams [] = Unit {0}
AreParams ((k, v) ∷ ps) = (is_empty k ≡ false) × IsBytes k × IsBytes v × AreParams ps

-- The values of a key, in order.
abbrev pub values : Bytes → List Param → List Bytes
values key [] = []
values key ((k, v) ∷ ps) = (if eqb k key then v ∷ [] else []) ++ values key ps

-- The separators of a URL.
abbrev is_separator : ℕ → Bool
is_separator c = c == b'&' || (c == b'=' || c == b'?')

url_encode-Lacks : (c : ℕ) (s : Bytes) → is_separator c ≡ true → IsBytes s → Lacks c (url_encode s)
url_encode-Lacks c [] h b = tt
url_encode-Lacks c (a ∷ s) h b = ground (arith, url_encode-Lacks c s h b.1)

get_query_values-add_query_param :
    (key k v : Bytes) (r : HttpRequest)
    → get_query_values key (add_query_param k v r)
      ≡ get_query_values key r ++ (if eqb k key then v ∷ [] else [])
unfolding get_query_values add_query_param
get_query_values-add_query_param key k v r = ground (
  arith,
  eqb_iff k key,
  lookup-insert k key (get_query_values k r ++ v ∷ []) r.query_params_multi,
  append-nil (get_query_values key r),
)

is_empty_behind : (s t : Bytes) (c : ℕ) → is_empty (s ++ c ∷ t) ≡ false
is_empty_behind [] t c = refl
is_empty_behind (a ∷ s) t c = refl

add_pair-format_param :
    (k v : Bytes) (r : HttpRequest)
    → is_empty k ≡ false
    → IsBytes k
    → IsBytes v
    → add_pair (format_param (k, v)) r ≡ add_query_param k v r
unfolding add_pair
add_pair-format_param k v r ne bk bv = ground (
  arith,
  find_byte_here b'=' (url_encode k) (url_encode v) (url_encode-Lacks b'=' k refl bk),
  take-append_length (url_encode k) (b'=' ∷ url_encode v),
  drop-append_ge (length (url_encode k) + 1) 1 (url_encode k) (b'=' ∷ url_encode v),
  url_decode-url_encode k bk,
  url_decode-url_encode v bv,
)

format_param-Lacks : (k v : Bytes) → IsBytes k → IsBytes v → Lacks b'&' (format_param (k, v))
format_param-Lacks k v bk bv =
    Lacks-append b'&' (url_encode k) (b'=' ∷ url_encode v) (url_encode-Lacks b'&' k refl bk)
      (refl, url_encode-Lacks b'&' v refl bv)

add_pairs-format_param :
    (k v : Bytes) (rest : List Bytes) (r : HttpRequest)
    → is_empty k ≡ false
    → IsBytes k
    → IsBytes v
    → add_pairs (format_param (k, v) ∷ rest) r ≡ add_pairs rest (add_query_param k v r)
unfolding add_pairs
add_pairs-format_param k v rest r ne bk bv =
    rw (is_empty_behind (url_encode k) (url_encode v) b'=')
      (ap (add_pairs rest) (add_pair-format_param k v r ne bk bv))

add_pairs_done : (r : HttpRequest) → add_pairs [] r ≡ r
unfolding add_pairs
add_pairs_done r = refl

add_pairs-values :
    (key : Bytes) (ps : List Param) (r : HttpRequest)
    → AreParams ps
    → get_query_values key (add_pairs (pieces b'&' [] (format_query ps)) r)
      ≡ get_query_values key r ++ values key ps
add_pairs-values key [] r a = unfold pieces add_pairs in sym (append-nil _)
add_pairs-values key ((k, v) ∷ []) r (ne, bk, bv, a) =
    rw (pieces_last b'&' [] (format_param (k, v)) (format_param-Lacks k v bk bv)) (
      rw (add_pairs-format_param k v [] r ne bk bv, add_pairs_done)
        (get_query_values-add_query_param key k v r ∙ rw append-nil))
add_pairs-values key ((k, v) ∷ q ∷ ps) r (ne, bk, bv, a) =
    rw
      (pieces_join b'&' [] (format_param (k, v)) (format_query (q ∷ ps))
        (format_param-Lacks k v bk bv))
      (rw (add_pairs-format_param k v (pieces b'&' [] (format_query (q ∷ ps))) r ne bk bv) (
        add_pairs-values key (q ∷ ps) (add_query_param k v r) a
        ∙ rw (get_query_values-add_query_param key k v r)
            (append_assoc (get_query_values key r) _ _)))

url-add_pair : (p : Bytes) (r : HttpRequest) → (add_pair p r).url ≡ r.url
unfolding add_pair add_query_param
url-add_pair p r = ground arith

url-add_pairs : (ps : List Bytes) (r : HttpRequest) → (add_pairs ps r).url ≡ r.url
unfolding add_pairs
url-add_pairs [] r = refl
url-add_pairs (p ∷ ps) r = elim (Bool-cases (is_empty p)) [
  | inl e ↦ rw (e, add_pairs) (url-add_pairs ps r)
  | inr e ↦ rw (e, add_pairs) (url-add_pairs ps (add_pair p r) ∙ url-add_pair p r)
]

format_query_nonempty : (p : Param) (ps : List Param) → is_empty (format_query (p ∷ ps)) ≡ false
format_query_nonempty (k, v) [] = is_empty_behind (url_encode k) (url_encode v) b'='
format_query_nonempty (k, v) (q ∷ ps) =
    is_empty_behind (format_param (k, v)) (format_query (q ∷ ps)) b'&'

-- The request with its URL split and no parameter yet.
abbrev split_at : Bytes → Bytes → HttpRequest → HttpRequest
split_at path query r = record r { url = path; raw_query = query; query_params_multi = [] }

set_url_split :
    (path query : Bytes) (r : HttpRequest)
    → Lacks b'?' path
    → set_url (path ++ b'?' ∷ query) r ≡ (
        if is_empty query
        then split_at path query r
        else parse_query_string (split_at path query r))
unfolding set_url
set_url_split path query r h = ground (
  arith,
  find_byte_here b'?' path query h,
  take-append_length path (b'?' ∷ query),
  drop-append_ge (length path + 1) 1 path (b'?' ∷ query),
)

-- The target `path?k1=v1&k2=v2...`, its keys and values percent-encoded, sets the path and, for
-- every key, its values in their order, whatever the request held before. The path has no `?`, the
-- keys are not empty; else path, keys and values may hold any bytes.
pub set_url-format_query :
    (path key : Bytes) (ps : List Param) (r : HttpRequest)
    → Lacks b'?' path
    → AreParams ps
    → ((set_url (path ++ b'?' ∷ format_query ps) r).url ≡ path)
      × (get_query_values key (set_url (path ++ b'?' ∷ format_query ps) r) ≡ values key ps)
set_url-format_query path key [] r h a =
    rw (set_url_split path [] r h) (refl, unfold get_query_values in refl)
set_url-format_query path key (p ∷ ps) r h a =
    let q = format_query (p ∷ ps) in
    rw (set_url_split path q r h, format_query_nonempty p ps)
      (unfold parse_query_string get_query_values in
        (
          url-add_pairs (pieces b'&' [] q) (split_at path q r),
          add_pairs-values key (p ∷ ps) (split_at path q r) a,
        ))
