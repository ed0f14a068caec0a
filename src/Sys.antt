-- ===== src/Sys.antt =====
-- The calls of bazelPro/src/utils/sys.cc that ask the system for its load and for processes. The texts
-- of the files that they read and the results of the calls of the system are arguments.
pub mod Double
pub mod Stream
pub mod Memory
pub mod Disk
pub mod Pid
pub mod Cpu
mod Tests
