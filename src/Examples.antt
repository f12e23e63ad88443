-- ===== src/Examples.antt =====
-- Concrete inputs, and the theorems at them.
mod Values
mod RetrievalCases
mod RagCases
mod DocumentCases
mod WorkerCases
mod HybridCases
mod AnswerCases
mod PageCases
mod UploadCases
mod EvaluationCases
