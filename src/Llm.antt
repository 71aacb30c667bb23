-- ===== src/Llm.antt =====
-- The language model seam: llm/tiers.py, llm/client.py and llm/assemble.py.
pub mod Tiers
pub mod Client
pub mod Depths
pub mod Assemble
