-- ===== src/Audio.antt =====
-- The audio plane (internal/audio).
pub mod Jitter
pub mod Manager
