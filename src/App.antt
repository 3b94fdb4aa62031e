-- ===== src/App.antt =====
-- application/src: the file manager on top of the HTTP server.
pub mod World
pub mod Exchange
pub mod Serve
pub mod Handlers
pub mod Range
pub mod Upload
pub mod Download
pub mod Filenames
pub mod Routes
pub mod Transfer
pub mod Database
mod Tests
