-- ===== src/App/Routes/Exact.antt =====
-- Routes of exact paths.
use c_cloud_storage.Prelude.{
  ◌≡◌, refl, sym, ap, ◌∙◌, Bool, true, false, ◌&&◌, Option, none, some, [], ◌∷◌, ◌++◌,
  if◌then◌else◌, Bytes, eqb,
}
use c_cloud_storage.Http.Request.{HttpRequest, HttpMethod, set_path_params}
use c_cloud_storage.App.Routes.{
  Regex, Route, Router, escape_regex, anchored, add_route_exact, same_method, bind_params,
  behind_first, try_route, or_else, dispatch, ReadsLiterals, literal-escape_regex,
}

module _ {ℓ} {H : Type ℓ} where
  or_else_assoc :
      (a b c : Option (H × HttpRequest)) → or_else (or_else a b) c ≡ or_else a (or_else b c)
  or_else_assoc none b c = refl
  or_else_assoc (some x) b c = refl

  or_else-none : (a : Option (H × HttpRequest)) → or_else a none ≡ a
  or_else-none none = refl
  or_else-none (some x) = refl

  -- Routes that were added first are tried first.
  pub dispatch-append :
      (regex : Regex) (rs qs : Router H) (req : HttpRequest)
      → dispatch regex (rs ++ qs) req ≡ or_else (dispatch regex rs req) (dispatch regex qs req)
  unfolding dispatch
  dispatch-append regex [] qs req = refl
  dispatch-append regex (r ∷ rs) qs req =
      by_method (same_method r.method req.method) (dispatch-append regex rs qs req)
    where
      by_method :
          (b : Bool)
          → dispatch regex (rs ++ qs) req ≡ or_else (dispatch regex rs req) (dispatch regex qs req)
          → (if b
              then or_else (try_route regex r req) (dispatch regex (rs ++ qs) req)
              else dispatch regex (rs ++ qs) req)
            ≡ or_else
                (if b
                  then or_else (try_route regex r req) (dispatch regex rs req)
                  else dispatch regex rs req)
                (dispatch regex qs req)
      by_method true h =
          ap (or_else (try_route regex r req)) h
          ∙ sym (
              or_else_assoc (try_route regex r req) (dispatch regex rs req) (dispatch regex qs req))
      by_method false h = h

  -- The route of an exact path, on its own.
  abbrev pub exact_answer : Bytes → HttpMethod → H → HttpRequest → Option (H × HttpRequest)
  exact_answer path method handler req =
      if same_method method req.method && eqb path req.url
      then some (handler, set_path_params [] req)
      else none

  exact_lem :
      (regex : Regex) (path : Bytes) (method : HttpMethod) (handler : H) (req : HttpRequest)
      → ReadsLiterals regex
      → dispatch regex (add_route_exact path method handler []) req
        ≡ exact_answer path method handler req
  unfolding dispatch add_route_exact bind_params
  exact_lem regex path method handler req reads = by_method (same_method method req.method)
    where
      exact : Route H
      exact = record {
        pattern = anchored (escape_regex path);
        params = [];
        handler = handler;
        method = method;
      }

      by_url :
          (b : Bool)
          → or_else
              (elim (if b then some (req.url ∷ []) else none) [
                | none ↦ none
                | some groups ↦
                    some (handler, set_path_params (bind_params [] (behind_first groups) []) req)
              ])
              none
            ≡ (if b then some (handler, set_path_params [] req) else none)
      by_url true = refl
      by_url false = refl

      matched :
          or_else (try_route regex exact req) none
          ≡ (if eqb path req.url then some (handler, set_path_params [] req) else none)
      matched =
          ap
            (λ o.
              or_else
                (elim o [
                  | none ↦ none
                  | some groups ↦
                      some (handler, set_path_params (bind_params [] (behind_first groups) []) req)
                ])
                none)
            (reads (escape_regex path) path req.url (literal-escape_regex path))
          ∙ by_url (eqb path req.url)

      by_method :
          (b : Bool)
          → (if b then or_else (try_route regex exact req) none else none)
            ≡ (if b && eqb path req.url then some (handler, set_path_params [] req) else none)
      by_method true = matched
      by_method false = refl

-- A route that `addRouteExact` adds answers the requests of its method whose path is the one
-- given, character by character, that no route added before it answers, and no other request; it
-- hands the request over without path parameters. The library of regular expressions is
-- one that reads a pattern of characters that are no operators, and of operators behind a backslash,
-- as the text of these characters, by the list of operators of the ECMAScript grammar.
pub dispatch-add_route_exact {ℓ} :
    {H : Type ℓ} (regex : Regex) (path : Bytes) (method : HttpMethod) (handler : H)
    (routes : Router H) (req : HttpRequest)
    → ReadsLiterals regex
    → dispatch regex (add_route_exact path method handler routes) req
      ≡ or_else (dispatch regex routes req) (
          if same_method method req.method && eqb path req.url
          then some (handler, set_path_params [] req)
          else none)
unfolding add_route_exact
dispatch-add_route_exact regex path method handler routes req reads =
    dispatch-append regex routes (add_route_exact path method handler []) req
    ∙ ap (or_else (dispatch regex routes req)) (exact_lem regex path method handler req reads)
