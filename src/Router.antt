-- ===== src/Router.antt =====
-- mymuduo/router: the tree of routes.
pub mod Trie
