-- ===== src/Friends.antt =====
-- The friends list and the presence tracker (internal/friends).
pub mod Store
pub mod Presence
