-- ===== src/Call.antt =====
-- The call control plane (internal/call).
pub mod Session
pub mod Manager
pub mod Engine
