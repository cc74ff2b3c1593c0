-- ===== src/Llm.antt =====
-- The client of the language model, app/core/llm.py: its limits, its circuit and its call retries.
pub mod RateLimiter
pub mod TokenLimiter
pub mod Circuit
pub mod CallRetries
