-- ===== src/Rag.antt =====
-- The retrieval-augmented generation package, apps/api/src/sourcetrace/rag.
pub mod Ports
pub mod AnswerText
pub mod Citation
pub mod Language
pub mod Workflow
