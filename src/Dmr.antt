-- ===== src/Dmr.antt =====
-- Package dmr: the air interface's bit order, checksums, blocks and headers.
pub mod Bits
pub mod Packet
pub mod Sync
pub mod Voice
pub mod Crc
pub mod ControlBlock
pub mod DataBlock
pub mod DataHeader
pub mod MessageData
pub mod BlockTests
pub mod Tests
