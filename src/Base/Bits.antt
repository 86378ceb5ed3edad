-- ===== src/Base/Bits.antt =====
-- Laws of the bitwise operations at variables, from their recursion on binary digits.
pub mod Digits
pub mod Xor
pub mod Mask
pub mod Table
