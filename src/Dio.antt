-- ===== src/Dio.antt =====
-- The buffered device I/O of hammer2_io.c: the 64KB buffers, their references and their hash.
pub mod Types
pub mod Pages
pub mod Buffer
pub mod Get
pub mod Put
pub mod Dedup
pub mod Table
pub mod Found
pub mod View
pub mod Effects
pub mod Renewed
pub mod Loaded
pub mod Filled
pub mod Origins
pub mod Stored
pub mod Coherent
pub mod Leak
pub mod Cooled
pub mod Cleaned
pub mod Places
pub mod Dropped
pub mod Written
