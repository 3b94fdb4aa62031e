-- ===== src/Router/Trie/Static.antt =====
-- Routes of fixed segments: `findRoute` finds what `addRoute` added last.
use c_cloud_storage.Prelude.{
  ℕ, ◌≡◌, refl, sym, ap, ◌∙◌, Bool, true, false, Option, none, some, List, [], ◌∷◌, ◌++◌, take,
  append_assoc, append-nil, take-append_length, arith, Bool-cases, inl, inr, ◌==◌, Bytes, eqb,
  eqb_refl, is_empty, find_byte,
}
use c_cloud_storage.Prelude.Split.{
  Lacks, Lacks-append, NoneEmpty, AllLack, render_path, find_byte_here, find_byte-none,
  segments-render_path,
}
use c_cloud_storage.Prelude.Dict.{Dict, lookup-insert_self}
use c_cloud_storage.Router.Trie.{
  TrieNode, trie_node, Children, no_child, child, create, RouteMatch, Match, is_param,
  push_param_name, update_child, add_segments, add_route, find_matches, static_matches,
  param_matches, wildcard_matches, first_handler, base_path, find_route,
}

abbrev NoneParam : List Bytes → Type 0
NoneParam [] = Unit {0}
NoneParam (s ∷ ss) = (is_param s ≡ false) × NoneParam ss

abbrev matched : Bytes → Dict Bytes → RouteMatch
matched h params = record { handler = h; params = params }

static_here :
    (key : Bytes) (f : TrieNode → TrieNode) (k : Bytes) (n : TrieNode) (cs : Children)
    (ss : List Bytes) (params : Dict Bytes)
    → eqb k key ≡ true
    → static_matches (update_child key f (child k n cs)) key ss params
      ≡ find_matches (f n) ss params
unfolding static_matches update_child
static_here key f k n cs ss params e = ground arith

static_there :
    (key : Bytes) (f : TrieNode → TrieNode) (k : Bytes) (n : TrieNode) (cs : Children)
    (ss : List Bytes) (params : Dict Bytes)
    → eqb k key ≡ false
    → static_matches (update_child key f (child k n cs)) key ss params
      ≡ static_matches (update_child key f cs) key ss params
unfolding static_matches update_child
static_there key f k n cs ss params e = ground arith

static_matches-update_child :
    (key : Bytes) (f : TrieNode → TrieNode) (cs : Children) (ss : List Bytes) (params : Dict Bytes)
    → (n : TrieNode) × (static_matches (update_child key f cs) key ss params
        ≡ find_matches (f n) ss params)
static_matches-update_child key f no_child ss params =
    (create, unfold update_child static_matches in rw (eqb_refl key) refl)
static_matches-update_child key f (child k n cs) ss params =
    let (m, e) = static_matches-update_child key f cs ss params in
    elim (Bool-cases (eqb k key)) [
      | inl same ↦ (n, static_here key f k n cs ss params same)
      | inr other ↦ (m, static_there key f k n cs ss params other ∙ e)
    ]

first_handler_leaf :
    (method h : Bytes) (n : TrieNode) (params : Dict Bytes) (more : List Match)
    → first_handler method (find_matches (add_segments method h [] n) [] params ++ more)
      ≡ matched h params
unfolding first_handler find_matches add_segments
first_handler_leaf method h (trie_node cs hs names leaf) params more =
    rw (lookup-insert_self method h hs, first_handler, find_matches, add_segments) refl

-- The fixed segment is looked for first.
find_matches_fixed :
    (method h s : Bytes) (ss : List Bytes) (cs : Children) (hs : Dict Bytes) (names : List Bytes)
    (leaf : Bool) (params : Dict Bytes)
    → is_param s ≡ false
    → let added = update_child s (λ n. add_segments method h ss (push_param_name s n)) cs in
      find_matches (add_segments method h (s ∷ ss) (trie_node cs hs names leaf)) (s ∷ ss) params
      ≡ static_matches added s ss params
        ++ (param_matches added s ss params ++ wildcard_matches added (s ∷ ss) params)
unfolding find_matches add_segments
find_matches_fixed method h s ss cs hs names leaf params a = ground arith

first_handler-add_segments :
    (method h : Bytes) (ss : List Bytes) (n : TrieNode) (params : Dict Bytes) (more : List Match)
    → NoneParam ss
    → first_handler method (find_matches (add_segments method h ss n) ss params ++ more)
      ≡ matched h params
first_handler-add_segments method h [] n params more a = first_handler_leaf method h n params more
first_handler-add_segments method h (s ∷ ss) (trie_node cs hs names leaf) params more a =
    let f : TrieNode → TrieNode = λ n'. add_segments method h ss (push_param_name s n') in
    let (n, e) = static_matches-update_child s f cs ss params in
    let added = update_child s f cs in
    let others = param_matches added s ss params ++ wildcard_matches added (s ∷ ss) params in
    ap (λ ms. first_handler method (ms ++ more))
      (find_matches_fixed method h s ss cs hs names leaf params a.0 ∙ ap (λ ms. ms ++ others) e)
    ∙ ap (first_handler method) (append_assoc (find_matches (f n) ss params) others more)
    ∙ first_handler-add_segments method h ss (push_param_name s n) params (others ++ more) a.1

abbrev pub query_text : Option Bytes → Bytes
query_text none = []
query_text (some q) = b'?' ∷ q

render_path-Lacks :
    (c : ℕ) (ss : List Bytes) → (b'/' == c) ≡ false → AllLack c ss → Lacks c (render_path ss)
render_path-Lacks c [] h a = tt
render_path-Lacks c (s ∷ ss) h a =
    (h, Lacks-append c s (render_path ss) a.0 (render_path-Lacks c ss h a.1))

unfixed :
    (path : Bytes) (at : Option ℕ)
    → at ≡ none
    → (elim at [ none ↦ path | some n ↦ take n path ]) ≡ path
unfixed path none e = refl
unfixed path (some n) e = cc

base_path_lem :
    (path : Bytes) (query : Option Bytes)
    → Lacks b'?' path
    → base_path (path ++ query_text query) ≡ path
base_path_lem path none h =
    rw (append-nil path) (unfixed path (find_byte b'?' path) (find_byte-none b'?' path h))
base_path_lem path (some q) h =
    rw (find_byte_here b'?' path q h, base_path) (take-append_length path (b'?' ∷ q))

-- Segments that are neither empty nor parameters, without slashes and question marks.
abbrev pub AreFixed : List Bytes → Type 0
AreFixed [] = Unit {0}
AreFixed (s ∷ ss) =
    (is_empty s ≡ false) × (is_param s ≡ false) × Lacks b'/' s × Lacks b'?' s × AreFixed ss

fixed_parts :
    (ss : List Bytes)
    → AreFixed ss
    → NoneEmpty ss × NoneParam ss × AllLack b'/' ss × AllLack b'?' ss
fixed_parts [] a = (tt, tt, tt, tt)
fixed_parts (s ∷ ss) (ne, np, l, q, a) =
    let (b, c, d, e) = fixed_parts ss a in ((ne, b), (np, c), (l, d), (q, e))

-- Whatever the tree holds, the path of a route of fixed segments that was just added to it is
-- found with the handler given for the method and no parameters, before any route with parameters
-- or a wildcard; a query behind the path does not matter. The segments are not empty, do not begin
-- with a colon, and hold no slash and no question mark.
pub find_route-add_route :
    (ss : List Bytes) (method h : Bytes) (root : TrieNode) (query : Option Bytes)
    → AreFixed ss
    → find_route
        (render_path ss ++ query_text query)
        method
        (add_route (render_path ss) method h root)
      ≡ record { handler = h; params = [] }
unfolding find_route add_route
find_route-add_route ss method h root query a =
    let (ne, np, l, q) = fixed_parts ss a in
    rw
      (
        base_path_lem (render_path ss) query (render_path-Lacks b'?' ss refl q),
        segments-render_path ss ne l,
        find_route,
        add_route,
      )
      (ap (first_handler method)
          (sym (append-nil (find_matches (add_segments method h ss root) ss [])))
        ∙ first_handler-add_segments method h ss root [] [] np)
