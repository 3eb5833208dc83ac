-- ===== src/Client.antt =====
-- The client: what it does with the responses of the server.
pub mod Processor
pub mod Agreement
pub mod Follows
pub mod Login
pub mod Learning
pub mod Responses
pub mod Session
pub mod Commands
pub mod Main
pub mod Accepted
pub mod Waiting
pub mod Exchange
pub mod Reorders
pub mod Pacing
pub mod Reading
