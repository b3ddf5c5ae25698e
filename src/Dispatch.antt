-- ===== src/Dispatch.antt =====
-- pkg/dispatch/service/dispatch_engine.go.
pub mod Segment
pub mod Media
pub mod Engine
