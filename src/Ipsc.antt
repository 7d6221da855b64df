-- ===== src/Ipsc.antt =====
-- ipsc/: the peer of a Motorola IP Site Connect master.
pub mod Config
pub mod Network
pub mod Tests
