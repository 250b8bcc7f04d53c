-- ===== src/Doip.antt =====
-- The DoIP layer (crate flxc1000-doip): ISO 13400 framing over TCP and UDP.
pub mod Header
pub mod Message
pub mod Connection
pub mod Server
mod Tests
