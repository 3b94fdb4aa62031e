-- ===== src/App/Handlers.antt =====
-- application/src: the handlers of the routes.
pub mod List
pub mod Delete
pub mod Access
pub mod Upload
pub mod Fields
pub mod Login
pub mod Static
pub mod Share
pub mod ShareAccess
pub mod Users
pub mod Table
pub mod Guards
pub mod Tests
mod Examples
pub mod Codes
pub mod Sessions
