-- ===== src/Tests.antt =====
-- Runs of the model on small inputs, and the theorems at such inputs.
pub mod Samples
pub mod Models
pub mod Book
pub mod Server
pub mod Stream
pub mod Load
pub mod Whole
pub mod Exchange
