-- ===== src/Llm.antt =====
-- minireplay/llm_store.py: the store that every model call of the framework crosses.
pub mod Sse
pub mod Tokens
pub mod Calls
pub mod Shape
pub mod Slot
pub mod Store
mod Tests
