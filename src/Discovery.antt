-- ===== src/Discovery.antt =====
-- internal/discovery: how friends publish and find each other's addresses.
pub mod Record
pub mod Keys
pub mod Cache
pub mod Resolver
pub mod Publisher
