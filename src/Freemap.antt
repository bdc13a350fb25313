-- ===== src/Freemap.antt =====
-- hammer2_freemap.c: the allocation of storage from the freemap.
pub mod Bmap
pub mod Types
pub mod Reserve
pub mod Leaf
pub mod Alloc
pub mod Adjust
