-- ===== src/Homebrew.antt =====
-- Package homebrew: the Homebrew IPSC protocol between repeaters and masters.
pub mod Packet
pub mod State
pub mod Handle
pub mod Keepalive
pub mod Run
pub mod RunTests
pub mod Tests
