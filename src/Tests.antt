-- ===== src/Tests.antt =====
-- Runs of the models on concrete inputs, and one instance of each theorem that has hypotheses.
pub mod World
mod Nodes
mod Passes
mod Bits
mod Scopes
mod Simplified
mod Stored
pub mod Blocks
mod Graphs
mod Built
