-- ===== src/Llm.antt =====
-- The calls of language models of tta/llm.
pub mod Admission
pub mod ContextBudget
pub mod Semaphore
