-- ===== src/Format.antt =====
-- The formatter of bazelPro/src/lib/snprintf_asyncsignalsafe.cc.
pub mod Arg
pub mod Itoa
pub mod Ftoa
pub mod Convert
pub mod Print
mod Tests
pub mod Contract
pub mod Field
pub mod Numbers
pub mod Whole
pub mod Pieces
pub mod Fields
