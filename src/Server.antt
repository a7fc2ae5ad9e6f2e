-- ===== src/Server.antt =====
-- The request handlers of src/server/server.c, and the loop that serves one connection.
pub mod Reply
pub mod Upload
pub mod Download
pub mod Listing
pub mod Session
pub mod Store
pub mod Lifecycle
pub use Reply.*
