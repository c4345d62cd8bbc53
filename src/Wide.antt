-- ===== src/Wide.antt =====
-- The 128-bit integers of include/dynd/uint128.hpp, include/dynd/int128.hpp, src/dynd/uint128.cpp and
-- src/dynd/int128.cpp, for compilers that have none: two words of 64 bits. The operators wrap around
-- in each word; the conversions from and to floating-point numbers are left out.
pub mod Arith
pub mod Int128
pub mod Print
pub mod Signed
pub mod Uint128
mod Tests
