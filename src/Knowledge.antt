-- ===== src/Knowledge.antt =====
-- The knowledge platform: src/services/knowledge_platform/.
pub mod Chunking
pub mod Tables
pub mod Repository
pub mod Queries
pub mod Ingestion
