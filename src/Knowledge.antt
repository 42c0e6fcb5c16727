-- ===== src/Knowledge.antt =====
-- The splitting of documents in src/bestteam/core/knowledge_base.py.
pub mod Chunking
mod Examples
