-- ===== src/Paging.antt =====
-- The lists that the services of modules/ give page by page.
pub mod Base64
pub mod Utf8
pub mod Cursor
pub mod Keyset
