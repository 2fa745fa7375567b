-- ===== src/User.antt =====
-- The C library of user programs, tlibc.
pub mod Compare
pub mod Malloc
pub mod Printf
