-- ===== src/Http/Request.antt =====
-- http/HttpRequest.cpp and inc/HttpRequest.h. A string is its bytes, a map an association list in
-- the order of its keys, and a setter returns the new request.
pub mod Path
pub mod Range
pub mod Decode
pub mod Query
pub mod Params
mod Tests
use c_cloud_storage.Prelude.{
  ℕ, suc, ◌+◌, ◌-◌, ◌*◌, Bool, true, false, ◌&&◌, ◌||◌, not, Option, none, some, List, [], ◌∷◌,
  ◌++◌, length, take, drop, ltb, leb, ◌==◌, if◌then◌else◌, Bytes, bytes, eqb, find_byte,
  starts_with, is_empty,
}
use c_cloud_storage.Prelude.Split.{pieces}
use c_cloud_storage.Prelude.Dict.{Dict, lookup, insert}
use c_cloud_storage.Prelude.Number.{ℤ, pos, negsuc, hex_value, stoll}

pub data HttpMethod : Type 0 where
  invalid get post head put delete : HttpMethod

pub data HttpVersion : Type 0 where
  unknown http10 http11 : HttpVersion

pub record HttpRequest : Type 0 where
  pub has_range : Bool
  pub range_start : ℤ
  pub range_end : ℤ
  pub range_suffix : Bool
  pub method : HttpMethod
  pub version : HttpVersion
  pub url : Bytes
  pub raw_query : Bytes
  pub query_params_multi : Dict (List Bytes)
  pub path_params : Dict Bytes
  pub request_params : Dict Bytes
  pub protocol : Bytes
  pub headers : Dict Bytes
  pub body : Bytes

abbrev pub create : HttpRequest
create = record {
  has_range = false;
  range_start = pos 0;
  range_end = negsuc 0;
  range_suffix = false;
  method = invalid;
  version = unknown;
  url = [];
  raw_query = [];
  query_params_multi = [];
  path_params = [];
  request_params = [];
  protocol = [];
  headers = [];
  body = [];
}

unfoldable pub method_of : Bytes → HttpMethod
unfolding eqb
method_of m =
    if eqb m (bytes "GET")
    then get
    else if eqb m (bytes "POST")
    then post
    else if eqb m (bytes "HEAD")
    then head
    else if eqb m (bytes "PUT")
    then put
    else if eqb m (bytes "DELETE")
    then delete
    else invalid

unfoldable pub set_method : Bytes → HttpRequest → HttpRequest
unfolding method_of
set_method m r = record r { method = method_of m }

abbrev pub method_string : HttpMethod → Bytes
method_string get = bytes "GET"
method_string post = bytes "POST"
method_string head = bytes "HEAD"
method_string put = bytes "PUT"
method_string delete = bytes "DELETE"
method_string invalid = bytes "INVALID"

abbrev pub get_method_string : HttpRequest → Bytes
get_method_string r = method_string r.method

unfoldable pub set_version : Bytes → HttpRequest → HttpRequest
unfolding eqb
set_version ver r = record r {
  version =
      if eqb ver (bytes "1.0") then http10 else if eqb ver (bytes "1.1") then http11 else unknown;
}

abbrev pub version_string : HttpVersion → Bytes
version_string http10 = bytes "HTTP/1.0"
version_string http11 = bytes "HTTP/1.1"
version_string unknown = bytes "Unknown"

abbrev pub get_version_string : HttpRequest → Bytes
get_version_string r = version_string r.version

abbrev plus_to_space : ℕ → ℕ
plus_to_space c = if c == b'+' then b' ' else c

-- `(h1 << 4) | h2` of two digits
abbrev escape_value : Option ℕ → Option ℕ → Option ℕ
escape_value (some h1) (some h2) = some (h1 * 16 + h2)
escape_value _ _ = none

-- The last two bytes of a text cannot start an escape.
unfoldable pub url_decode : Bytes → Bytes
url_decode [] = []
url_decode (c ∷ []) = plus_to_space c ∷ []
url_decode (c ∷ a ∷ []) = plus_to_space c ∷ url_decode (a ∷ [])
url_decode (c ∷ a ∷ b ∷ s) =
    let plain = plus_to_space c ∷ url_decode (a ∷ b ∷ s) in
    let after = url_decode s in
    if c == b'%'
    then (elim (escape_value (hex_value a) (hex_value b)) [ none ↦ plain | some v ↦ v ∷ after ])
    else plain

abbrev or_empty {ℓ} : {A : Type ℓ} → Option (List A) → List A
or_empty none = []
or_empty (some l) = l

unfoldable pub add_query_param : Bytes → Bytes → HttpRequest → HttpRequest
unfolding lookup insert
add_query_param key value r = record r {
  query_params_multi =
      insert key (or_empty (lookup key r.query_params_multi) ++ value ∷ []) r.query_params_multi;
}

-- One round of the loop of `ParseQueryString`.
unfoldable pub add_pair : Bytes → HttpRequest → HttpRequest
unfolding find_byte url_decode add_query_param
add_pair pair r = elim (find_byte b'=' pair) [
  | none ↦ add_nonempty (url_decode pair) []
  | some eq ↦ add_nonempty (url_decode (take eq pair)) (url_decode (drop (eq + 1) pair))
]
  where
    add_nonempty : Bytes → Bytes → HttpRequest
    add_nonempty key value = if is_empty key then r else add_query_param key value r

unfoldable pub add_pairs : List Bytes → HttpRequest → HttpRequest
unfolding add_pair
add_pairs [] r = r
add_pairs (p ∷ ps) r = add_pairs ps (if is_empty p then r else add_pair p r)

unfoldable pub parse_query_string : HttpRequest → HttpRequest
unfolding pieces add_pairs
parse_query_string r = add_pairs (pieces b'&' [] r.raw_query) r

unfoldable pub set_url : Bytes → HttpRequest → HttpRequest
unfolding find_byte parse_query_string
set_url target r = elim (find_byte b'?' target) [
  | none ↦ record r { url = target; raw_query = []; query_params_multi = [] }
  | some at ↦
      let split = record r {
        url = take at target;
        raw_query = drop (at + 1) target;
        query_params_multi = [];
      } in
      if is_empty split.raw_query then split else parse_query_string split
]

unfoldable pub get_query_values : Bytes → HttpRequest → List Bytes
unfolding lookup
get_query_values key r = or_empty (lookup key r.query_params_multi)

abbrev first_or_empty : List Bytes → Bytes
first_or_empty [] = []
first_or_empty (v ∷ _) = v

unfoldable pub get_query_value : Bytes → HttpRequest → Bytes
unfolding get_query_values
get_query_value key r = first_or_empty (get_query_values key r)

unfoldable pub set_path_param : Bytes → Bytes → HttpRequest → HttpRequest
unfolding insert
set_path_param key value r = record r { path_params = insert key value r.path_params }

unfoldable pub set_path_params : Dict Bytes → HttpRequest → HttpRequest
set_path_params params r = record r { path_params = params }

unfoldable pub get_path_param : Bytes → HttpRequest → Bytes
unfolding lookup
get_path_param key r = or_empty (lookup key r.path_params)

unfoldable pub set_request_params : Bytes → Bytes → HttpRequest → HttpRequest
unfolding insert
set_request_params key value r = record r { request_params = insert key value r.request_params }

unfoldable pub get_request_value : Bytes → HttpRequest → Bytes
unfolding lookup
get_request_value key r = or_empty (lookup key r.request_params)

unfoldable pub set_protocol : Bytes → HttpRequest → HttpRequest
set_protocol text r = record r { protocol = text }

unfoldable pub add_header : Bytes → Bytes → HttpRequest → HttpRequest
unfolding insert
add_header field value r = record r { headers = insert field value r.headers }

unfoldable pub get_header : Bytes → HttpRequest → Bytes
unfolding lookup
get_header field r = or_empty (lookup field r.headers)

unfoldable pub set_body : Bytes → HttpRequest → HttpRequest
set_body text r = record r { body = text }

unfoldable pub append_body : Bytes → HttpRequest → HttpRequest
append_body part r = record r { body = r.body ++ part }
