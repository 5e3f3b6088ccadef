-- ===== src/Examples.antt =====
-- Concrete runs: a toy instance of the crates, tests, and the theorems at concrete inputs.
pub mod Toy
pub mod ToyOut
pub mod Server
pub mod Site
mod Rows
mod Messages
mod Approvals
mod Operations
pub mod Startup
pub mod History
mod Restart
mod Reload
pub mod Reply
mod Refusal
mod Oracle
