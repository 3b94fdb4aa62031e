-- ===== src/Http.antt =====
-- The HTTP library under http.
pub mod Request
pub mod Response
pub mod Context
pub mod Server
