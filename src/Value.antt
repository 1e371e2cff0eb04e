-- ===== src/Value.antt =====
-- src/value: values as 64-bit words, a tag in the low three bits.
pub mod Tags
pub mod Xint
pub mod Xbool
mod Tests
