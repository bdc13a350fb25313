-- ===== src/Bulkfree.antt =====
-- hammer2_bulkfree.c: the bitmaps that a scan of the topology collects, and their merge into the
-- live freemap.
pub mod Types
pub mod Sync
pub mod Turn
pub mod Loop
pub mod Account
pub mod Merge
pub mod Record
pub mod Bigmask
pub mod Found
pub mod Scanned
pub mod Init
pub mod Handed
pub mod Safety
