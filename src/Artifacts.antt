-- ===== src/Artifacts.antt =====
-- The artifact engine: artifacts/refs.py, artifacts/registry.py, artifacts/store.py and
-- artifacts/graph.py.
pub mod Refs
pub mod Registry
pub mod Store
pub mod Reads
pub mod Graph
