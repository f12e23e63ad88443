-- ===== src/Documents.antt =====
-- Documents, apps/api/src/sourcetrace/modules/documents.
pub mod Chunking
pub mod Records
pub mod Registration
pub mod Upload
pub mod Ingestion
pub mod Delivery
pub mod Indexing
pub mod Retry
pub mod Worker
