-- ===== src/Ondisk.antt =====
-- hammer2_ondisk.c: the volume headers, the volume table, and the volume of an offset.
pub mod Types
pub mod Verify
pub mod Header
pub mod Volumes
pub mod Newest
pub mod Tiles
pub mod Serve
