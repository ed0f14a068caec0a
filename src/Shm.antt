-- ===== src/Shm.antt =====
-- `Hk_Shm` of bazelPro/src/tmp/tmp.h and tmp.cc: a ring of 15 records in shared memory, written by
-- one process and read by others. The bytes of a payload are a list. The clock is an argument, in
-- seconds. `none` is an access outside the ring or past the end of a payload.
pub mod Crc
pub mod Defs
pub mod Ring
pub mod Publish
pub mod Recovery
pub mod Index
pub mod Attach
mod Tests
