-- ===== src/Tests.antt =====
-- Runs of the model on small inputs, over a small platform for the external code.
pub mod Platform
pub mod Store
pub mod Shelf
pub mod Texts
pub mod Transfers
pub mod Records
pub mod Requests
pub mod Watcher
pub mod Exchange
pub mod Wide
pub mod Fetched
pub mod Answered
pub mod Served
pub mod Plain
