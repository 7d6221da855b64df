-- ===== src/Checks.antt =====
-- crc/: the quadratic residue code and a checksum by table.
pub mod QuadRes
pub mod Crc16
pub mod Tests
