-- ===== src/Lc.antt =====
-- lc/: link control messages of nine bytes, and the units that they carry.
pub mod ServiceOptions
pub mod Pdu
pub mod Message
pub mod Tests
