-- ===== src/Invite.antt =====
-- Invites (internal/invite).
pub mod Code
pub mod Store
pub mod Handshake
pub mod Url
pub mod Record
pub mod Redeem
