-- ===== src/Ai.antt =====
-- The AI adapter: pkg/ai/model/a2a.go and pkg/ai/service/ai_adapter.go.
pub mod Wire
pub mod Response
pub mod Identity
pub mod Retry
pub mod Files
pub mod Request
pub mod Adapter
