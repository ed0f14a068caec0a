-- ===== src/Hk.antt =====
-- The robot agent of bazelPro/src/hk: its messages, the functions that generate them, and the server.
pub mod Wire
pub mod Types
pub mod Gen
pub mod Frame
pub mod Server
