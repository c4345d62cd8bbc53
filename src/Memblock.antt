-- ===== src/Memblock.antt =====
-- Memory blocks, which own the data of arrays: src/dynd/memblock.
pub mod Contents
pub mod Pod
pub mod Zeroinit
mod Tests
