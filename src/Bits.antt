-- ===== src/Bits.antt =====
-- `|`, `&` and `^` of C on unsigned values, as arithmetic. The native operations mean a recursion
-- on binary digits with fuel; here each gets an equation for its lowest digit, and from these the
-- laws that the byte swaps and the checksum need.
mod Digit
mod Xor
mod Fields
pub use Xor.*
pub use Fields.*
