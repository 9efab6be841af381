-- ===== src/Tests.antt =====
-- Sample packages, and the theorems at concrete inputs.
pub mod Vectors
pub mod Samples
pub mod Documents
mod Accounts
mod Instructions
mod Payments
mod Curves
mod Sessions
mod States
mod Transports
mod Sweeps
mod Nonces
