-- ===== src/Exchange.antt =====
-- Both sides of a connection: what the handlers of src/server/server.c send and what the functions
-- of src/client/client.c make of it.
pub mod Replies
pub mod Texts
pub mod Listing
pub mod Download
pub mod Upload
pub mod Served
pub mod Answered
pub mod Private
