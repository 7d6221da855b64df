-- ===== src/Base/Bits.antt =====
-- The bit operations at variables: what one binary digit contributes, masks and shifted fields as
-- arithmetic, and the laws of exclusive or.
pub mod Digits
pub mod Fields
pub mod Xor
