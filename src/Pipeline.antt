-- ===== src/Pipeline.antt =====
-- pipeline/pipeline.go: how the input of a live block is fetched from a node.
pub mod Types
pub mod Engine
pub mod Bal
pub mod Fetch
pub mod Success
pub mod Committed
