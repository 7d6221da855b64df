-- ===== src/Fec.antt =====
-- fec/: error-correcting codes.
pub mod Hamming
pub mod Golay
pub mod ReedSolomon
pub mod Tests
