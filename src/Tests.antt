-- ===== src/Tests.antt =====
-- Runs of the model on small inputs, and the theorems at concrete inputs.
pub mod Sample
mod Storing
mod Deciding
mod Interleaving
mod Epochs
mod Remote
mod Executing
pub mod Transfers
mod Demos
mod Measuring
pub mod Picking
mod Benching
mod Panicking
mod Losing
use ccas.Common.{ℕ}
