-- ===== src/Subr.antt =====
-- hammer2_subr.c: the helpers that the rest of the file system shares.
pub mod Radix
pub mod RadixSize
pub mod Types
pub mod Time
pub mod Dirhash
pub mod Sizes
