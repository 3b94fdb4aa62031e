-- ===== src/App/Routes.antt =====
-- application/src/inc/Router.h and Router.cpp. The library of regular expressions is a parameter:
-- for a pattern and a text, the groups of the match, the whole text first. A route carries its
-- handler, here any type; `dispatch` gives the handler that it calls and the request that it hands
-- over, and `none` where it returns false without a call.
pub mod Exact
use c_cloud_storage.Prelude.{
  ℕ, zero, suc, ◌≡◌, refl, sym, ap, ◌∙◌, Bool, true, false, ◌&&◌, ◌||◌, Option, none, some, List,
  [], ◌∷◌, ◌++◌, ◌==◌, if◌then◌else◌, if_then, if_else, Bytes, bytes, eqb, arith, Bool-cases, inl,
  inr,
}
use c_cloud_storage.Prelude.Dict.{Dict, insert}
use c_cloud_storage.Http.Request.{
  HttpRequest, HttpMethod, get, post, head, put, delete, set_path_params,
}
use c_cloud_storage.Http.Request

abbrev pub Regex : Type 0
Regex = Bytes → Bytes → Option (List Bytes)

pub record Route {ℓ} (H : Type ℓ) : Type ℓ where
  pub pattern : Bytes
  pub params : List Bytes
  pub handler : H
  pub method : HttpMethod

abbrev pub Router {ℓ} : Type ℓ → Type ℓ
Router H = List (Route H)

-- The characters that `escapeRegex` puts a backslash before.
abbrev pub is_special : ℕ → Bool
is_special c =
    c == b'.'
    || (c == b'+'
        || (c == b'*'
            || (c == b'?'
                || (c == b'^'
                    || (c == b'$'
                        || (c == b'('
                            || (c == b')'
                                || (c == b'['
                                    || (c == b']'
                                        || (c == b'{'
                                            || (c == b'}' || (c == b'|' || c == 92))))))))))))

unfoldable pub escape_regex : Bytes → Bytes
escape_regex [] = []
escape_regex (c ∷ s) =
    let rest = escape_regex s in if is_special c then 92 ∷ (c ∷ rest) else c ∷ rest

abbrev pub anchored : Bytes → Bytes
anchored p = b'^' ∷ (p ++ b'$' ∷ [])

module _ {ℓ} {H : Type ℓ} where
  unfoldable pub add_route_exact : Bytes → HttpMethod → H → Router H → Router H
  unfolding escape_regex
  add_route_exact path method handler routes =
      routes
      ++ record {
        pattern = anchored (escape_regex path);
        params = [];
        handler = handler;
        method = method;
      }
        ∷ []

  unfoldable pub add_route_regex : Bytes → HttpMethod → H → List Bytes → Router H → Router H
  add_route_regex pattern method handler params routes =
      routes
      ++ record { pattern = pattern; params = params; handler = handler; method = method } ∷ []

abbrev pub same_method : HttpMethod → HttpMethod → Bool
same_method HttpMethod.invalid HttpMethod.invalid = true
same_method get get = true
same_method post post = true
same_method head head = true
same_method put put = true
same_method delete delete = true
same_method _ _ = false

-- The parameters by their groups, as far as there are both.
unfoldable pub bind_params : List Bytes → List Bytes → Dict Bytes → Dict Bytes
unfolding insert
bind_params [] groups m = m
bind_params (p ∷ ps) [] m = m
bind_params (p ∷ ps) (g ∷ groups) m = bind_params ps groups (insert p g m)

abbrev pub behind_first : List Bytes → List Bytes
behind_first [] = []
behind_first (_ ∷ l) = l

module _ {ℓ} {H : Type ℓ} where
  -- What a route does for a request of its method.
  abbrev pub try_route : Regex → Route H → HttpRequest → Option (H × HttpRequest)
  try_route regex r req = elim (regex r.pattern req.url) [
    | none ↦ none
    | some groups ↦
        some (r.handler, set_path_params (bind_params r.params (behind_first groups) []) req)
  ]

  abbrev pub or_else :
      Option (H × HttpRequest) → Option (H × HttpRequest) → Option (H × HttpRequest)
  or_else none o = o
  or_else (some x) o = some x

  unfoldable pub dispatch : Regex → Router H → HttpRequest → Option (H × HttpRequest)
  unfolding bind_params set_path_params
  dispatch regex [] req = none
  dispatch regex (r ∷ routes) req =
      let rest = dispatch regex routes req in
      if same_method r.method req.method then or_else (try_route regex r req) rest else rest

-- The characters of the ECMAScript grammar that do not stand for themselves, as the standard lists
-- them.
abbrev pub syntax_characters : Bytes
syntax_characters = bytes "^$\\.*+?()[]{}|"

abbrev pub occurs_in : ℕ → Bytes → Bool
occurs_in c [] = false
occurs_in c (d ∷ s) = c == d || occurs_in c s

-- What a pattern without operators stands for: a character that is not one of these stands for
-- itself, and so does one of these behind a backslash. Other patterns are not read.
unfoldable pub literal : Bool → Bytes → Option Bytes
literal true [] = none
literal false [] = some []
literal true (c ∷ s) =
    let plain = literal false s in
    if occurs_in c syntax_characters
    then (elim plain [ none ↦ none | some l ↦ some (c ∷ l) ])
    else none
literal false (c ∷ s) =
    let quoted = literal true s in
    let plain = literal false s in
    if c == 92
    then quoted
    else if occurs_in c syntax_characters
    then none
    else (elim plain [ none ↦ none | some l ↦ some (c ∷ l) ])

-- These are the characters that `escapeRegex` escapes.
special_is_syntax : (c : ℕ) → is_special c ≡ occurs_in c syntax_characters
special_is_syntax c = ground arith

-- A pattern of plain and of escaped characters between its anchors matches the text that it stands
-- for, and no other.
abbrev pub ReadsLiterals : Regex → Type 0
ReadsLiterals regex =
    (p l t : Bytes)
    → literal false p ≡ some l
    → regex (anchored p) t ≡ (if eqb l t then some (t ∷ []) else none)

abbrev in_front : ℕ → Option Bytes → Option Bytes
in_front c o = elim o [ none ↦ none | some l ↦ some (c ∷ l) ]

-- An escaped text stands for itself.
pub literal-escape_regex : (s : Bytes) → literal false (escape_regex s) ≡ some s
unfolding literal escape_regex
literal-escape_regex [] = refl
literal-escape_regex (c ∷ s) = by_kind (is_special c) refl (literal-escape_regex s)
  where
    backslash_special : is_special c ≡ false → (c == 92) ≡ false
    backslash_special h = ground (arith, h)

    by_kind :
        (b : Bool)
        → is_special c ≡ b
        → literal false (escape_regex s) ≡ some s
        → literal false (if b then 92 ∷ (c ∷ escape_regex s) else c ∷ escape_regex s) ≡ some (c ∷ s)
    by_kind true e h = if_then _ _ (sym (special_is_syntax c) ∙ e) ∙ ap (in_front c) h
    by_kind false e h =
        if_else _ _ (backslash_special e)
        ∙ if_else _ _ (sym (special_is_syntax c) ∙ e)
        ∙ ap (in_front c) h
