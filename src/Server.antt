-- ===== src/Server.antt =====
-- The server: the map of sessions, the interface to the player database, and the processor of one
-- session's requests.
pub mod SessionMap
pub mod Online
pub mod World
pub mod Account
pub mod Magics
pub mod Play
pub mod Dispatch
pub mod Phases
pub mod Unmoved
pub mod Lifetime
pub mod Supplies
pub mod Refusals
pub mod Fusion
pub mod Connection
pub mod Queue
pub mod System
pub mod Handled
pub mod Claims
pub mod Releases
pub mod Owners
pub mod Answered
pub mod Config
pub mod Pauses
pub mod DataInit
