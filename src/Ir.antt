-- ===== src/Ir.antt =====
-- auditzoo/core: the graph of code units with its facts, and the agent that serves it.
pub mod Model
pub mod Graph
pub mod Backend
pub mod View
pub mod Storage
pub mod Facts
pub mod Kinds
