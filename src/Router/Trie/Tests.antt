-- ===== src/Router/Trie/Tests.antt =====
-- Runs of the tree of routes, as in test/testrouter.cpp, and its theorem at a concrete input.
use c_cloud_storage.Prelude.{◌≡◌, refl, some, List, [], ◌∷◌, ◌++◌, Bytes, bytes, arith}
use c_cloud_storage.Prelude.Split.{render_path}
use c_cloud_storage.Router.Trie
use c_cloud_storage.Router.Trie.{
  TrieNode, RouteMatch, add_route, add_segments, update_child, find_route, find_matches,
  first_handler,
}
use c_cloud_storage.Router.Trie.Static.{query_text, find_route-add_route}

abbrev routes : TrieNode
routes = add_route (bytes "/static/**") (bytes "GET") (bytes "StaticCatchAll") (
    add_route (bytes "/users/:id") (bytes "GET") (bytes "UserShow")
      (add_route (bytes "/hello") (bytes "GET") (bytes "Hello") Trie.create))

abbrev get : Bytes → RouteMatch
get path = find_route path (bytes "GET") routes

finds :
    (get (bytes "/hello") ≡ record { handler = bytes "Hello"; params = [] })
    × (find_route (bytes "/hello") (bytes "POST") routes ≡ record { handler = []; params = [] })
    × (get (bytes "/users/99?foo=bar")
        ≡ record { handler = bytes "UserShow"; params = (bytes "id", bytes "99") ∷ [] })
    × (get (bytes "/static/js/app.js")
        ≡ record { handler = bytes "StaticCatchAll"; params = (bytes "*", bytes "js/app.js") ∷ [] })
    × (get (bytes "/nope") ≡ record { handler = []; params = [] })
unfolding add_route find_route
finds = (refl, refl, refl, refl, refl)

abbrev page : List Bytes
page = bytes "users" ∷ bytes "list" ∷ []

find_route-add_route_example :
    find_route
      (render_path page ++ query_text (some (bytes "page=2")))
      (bytes "GET")
      (add_route (render_path page) (bytes "GET") (bytes "UserList") routes)
    ≡ record { handler = bytes "UserList"; params = [] }
find_route-add_route_example =
    find_route-add_route page (bytes "GET") (bytes "UserList") routes (some (bytes "page=2"))
      (ground arith)
