-- ===== src/Retrieval.antt =====
-- Retrieval, apps/api/src/sourcetrace/modules/retrieval.
pub mod Query
pub mod Evidence
pub mod Order
pub mod Pages
pub mod Coverage
pub mod Fusion
pub mod Hybrid
pub mod Rerank
pub mod Search
