-- ===== src/Llm.antt =====
-- src/adapters/llm and core/ports/llm.py: the language models behind the port `LLMClient`.
pub mod Fallback
