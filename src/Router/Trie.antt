-- ===== src/Router/Trie.antt =====
-- mymuduo/router/RouterTrie.cpp and inc/RouterTrie.h. A node's children are a list of segments with
-- their nodes: a map is only searched, so its order does not matter. The source shares nodes by
-- pointers, but each has one parent, so a node is a value. The parameter `paramNames` of `addRoute`
-- is not used by it.
pub mod Static
mod Tests
use c_cloud_storage.Prelude.{
  ℕ, Bool, true, false, Option, none, some, List, [], ◌∷◌, ◌++◌, take, if◌then◌else◌, ◌==◌, Bytes,
  bytes, eqb, is_empty, find_byte,
}
use c_cloud_storage.Prelude.Split.{segments}
use c_cloud_storage.Prelude.Dict.{Dict, lookup, insert}

mutual
  pub data TrieNode : Type 0 where
    trie_node : Children → Dict Bytes → List Bytes → Bool → TrieNode

  pub data Children : Type 0 where
    no_child : Children
    child : Bytes → TrieNode → Children → Children

abbrev pub create : TrieNode
create = trie_node no_child [] [] false

pub record RouteMatch : Type 0 where
  pub handler : Bytes
  pub params : Dict Bytes

abbrev pub is_param : Bytes → Bool
is_param [] = false
is_param (c ∷ _) = c == b':'

abbrev tail : Bytes → Bytes
tail [] = []
tail (_ ∷ s) = s

-- The key of a segment of a route among the children, and the name that a parameter leaves there.
abbrev pub key_of : Bytes → Bytes
key_of segment = if is_param segment then bytes "*" else segment

abbrev pub push_param_name : Bytes → TrieNode → TrieNode
push_param_name segment (trie_node cs hs names leaf) =
    trie_node cs hs (if is_param segment then names ++ tail segment ∷ [] else names) leaf

-- The child of a key is changed, and made first if there is none.
unfoldable pub update_child : Bytes → (TrieNode → TrieNode) → Children → Children
unfolding eqb
update_child key f no_child = child key (f create) no_child
update_child key f (child k n cs) =
    let rest = update_child key f cs in if eqb k key then child k (f n) cs else child k n rest

-- The loop of `addRoute`.
unfoldable pub add_segments : Bytes → Bytes → List Bytes → TrieNode → TrieNode
unfolding update_child insert
add_segments method handler [] (trie_node cs hs names leaf) =
    trie_node cs (insert method handler hs) names true
add_segments method handler (s ∷ ss) (trie_node cs hs names leaf) =
    trie_node
      (update_child (key_of s) (λ n. add_segments method handler ss (push_param_name s n)) cs) hs
      names leaf

unfoldable pub add_route : Bytes → Bytes → Bytes → TrieNode → TrieNode
unfolding segments add_segments
add_route path method handler root = add_segments method handler (segments path) root

abbrev pub Match : Type 0
Match = TrieNode × Dict Bytes

abbrev last_name : List Bytes → Option Bytes
last_name [] = none
last_name (s ∷ []) = some s
last_name (_ ∷ s ∷ ss) = last_name (s ∷ ss)

-- What a wildcard takes of the segments, and what it leaves: nothing first.
abbrev pub splits : Bytes → List Bytes → List (Bytes × List Bytes)
splits captured [] = (captured, []) ∷ []
splits captured (s ∷ ss) =
    (captured, s ∷ ss) ∷ splits (if is_empty captured then s else captured ++ b'/' ∷ s) ss

abbrev pub capture : Bytes → Dict Bytes → Dict Bytes
capture captured params = if is_empty captured then params else insert (bytes "*") captured params

abbrev each_split :
    (List Bytes → Dict Bytes → List Match) → Dict Bytes → List (Bytes × List Bytes) → List Match
each_split find params [] = []
each_split find params ((captured, rest) ∷ more) =
    find rest (capture captured params) ++ each_split find params more

abbrev pub bind_name : Option Bytes → Bytes → Dict Bytes → Dict Bytes
bind_name none segment params = params
bind_name (some name) segment params = insert name segment params

abbrev pub name_of : TrieNode → Option Bytes
name_of (trie_node cs hs names leaf) = last_name names

abbrev has_name : Option Bytes → Bool
has_name none = false
has_name (some _) = true

-- The matches are in the order in which `findMatches` adds them. The last three look for the child
-- of a segment, of a parameter and of a wildcard.
unfoldable mutual
  unfolding insert eqb

  pub find_matches : TrieNode → List Bytes → Dict Bytes → List Match
  find_matches (trie_node cs hs names leaf) [] params =
      if leaf then (trie_node cs hs names leaf, params) ∷ [] else []
  find_matches (trie_node cs hs names leaf) (s ∷ ss) params =
      static_matches cs s ss params
      ++ (param_matches cs s ss params ++ wildcard_matches cs (s ∷ ss) params)

  pub static_matches : Children → Bytes → List Bytes → Dict Bytes → List Match
  static_matches no_child s ss params = []
  static_matches (child k n cs) s ss params =
      let here = find_matches n ss params in
      let there = static_matches cs s ss params in if eqb k s then here else there

  pub param_matches : Children → Bytes → List Bytes → Dict Bytes → List Match
  param_matches no_child s ss params = []
  param_matches (child k n cs) s ss params =
      let here = find_matches n ss (bind_name (name_of n) s params) in
      let there = param_matches cs s ss params in
      if eqb k (bytes "*") then (if has_name (name_of n) then here else []) else there

  pub wildcard_matches : Children → List Bytes → Dict Bytes → List Match
  wildcard_matches no_child segs params = []
  wildcard_matches (child k n cs) segs params =
      let here = each_split (find_matches n) params (splits [] segs) in
      let there = wildcard_matches cs segs params in if eqb k (bytes "**") then here else there

-- The first match that has the method.
unfoldable pub first_handler : Bytes → List Match → RouteMatch
unfolding lookup
first_handler method [] = record { handler = []; params = [] }
first_handler method ((trie_node cs hs names leaf, params) ∷ more) =
    let rest = first_handler method more in
    elim (lookup method hs) [
      | none ↦ rest
      | some h ↦ if leaf then record { handler = h; params = params } else rest
    ]

abbrev pub base_path : Bytes → Bytes
base_path path = elim (find_byte b'?' path) [ none ↦ path | some at ↦ take at path ]

unfoldable pub find_route : Bytes → Bytes → TrieNode → RouteMatch
unfolding segments find_matches first_handler find_byte
find_route path method root =
    first_handler method (find_matches root (segments (base_path path)) [])
