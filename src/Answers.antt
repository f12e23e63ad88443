-- ===== src/Answers.antt =====
-- Answer runs, apps/api/src/sourcetrace/modules/answers.
pub mod Records
pub mod Repository
pub mod Stream
