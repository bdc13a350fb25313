-- ===== src/Lib.antt =====
-- HAMMER2 for Windows: a verification of the parts that decide where data lies and who may touch it.
--
-- The program is a port of the HAMMER2 file system. Blocks are named by blockrefs; the freemap
-- hands out the storage behind them, from a bitmap for each 4MB, grouped in leaves of 1GB; volumes
-- map the offsets of blockrefs to devices; buffers of 64KB stand before the devices; chains and
-- inodes above them are guarded by the CCMS lock. The development models these parts, each in a
-- module:
--
-- - Common: the shared names; arrays as lists, C integers as natural numbers with their wrap-
--   around, int32_t counters as integers, words as rows of two-bit entries, and code that may stop
--   in an assertion (Checked).
-- - Disk (hammer2_disk.h): the constants of the media.
-- - Subr (hammer2_subr.c): Radix is hammer2_getradix, Types the conversions of object types, Time
--   hammer2_time_to_timespec and hammer2_timespec_to_time, Dirhash hammer2_dirhash, Sizes
--   hammer2_calc_logical and hammer2_calc_physical.
-- - Freemap (hammer2_freemap.c): Bmap is hammer2_bmap_alloc, Leaf hammer2_freemap_init, Reserve
--   hammer2_freemap_reserve, Alloc hammer2_freemap_alloc with _try_alloc and _iterate, Adjust
--   hammer2_freemap_adjust. A bitmap is a record Bmap, a leaf the list of its 256 bitmaps, and the
--   device (Dev) a function from multiples of 1GB to leaves.
-- - Ccms (hammer2_ccms.c): the functions of the lock, each one pass of a loop under the structural
--   spinlock; Ccms.Threads lets any number of threads take such passes in any order.
-- - Ondisk (hammer2_ondisk.c): Header is hammer2_read_volume_header, Verify the
--   hammer2_verify_volumes functions, Volumes hammer2_init_volumes and hammer2_get_volume.
-- - Cluster (hammer2_cluster.c): hammer2_cluster_check, _type, _bref and the dummy cluster; Last is
--   about the loop that picks the focus, Focus about the whole check.
-- - Bulkfree (hammer2_bulkfree.c): Record is cbinfo_bmap_init and h2_bulkfree_callback, which
--   collect bitmaps of the references that a scan of the topology visits, and Sync
--   h2_bulkfree_sync_adjust, which merges such a bitmap into a live one; Bigmask is bigmask_get and
--   bigmask_good. Turn, Loop, Account and Merge are about the merge, Found, Scanned and Init about
--   the collection, Safety about the two together, and Handed about the references that
--   hammer2_bmap_alloc gives rise to.
-- - Chain (hammer2_chain.c): the array of blockrefs of a chain. Find is hammer2_chain_countbrefs
--   and hammer2_base_find, Insert hammer2_base_insert, Delete hammer2_base_delete, Account the
--   statistics that the last two keep. The array stands for the list of its entries in use.
--   Combined is hammer2_chain_find, over the chains in memory in the order of their tree, and
--   hammer2_combined_find.
-- - Trans (hammer2_flush.c): the transactions of a pfs, hammer2_trans_init and its neighbours;
--   Trans.System lets threads start, end and wait for them in any order. The count shares a word
--   with the flags, into which its carry runs; Trans.Word is about that word.
-- - Dio (hammer2_io.c): the buffers of 64KB before the devices. Types is struct hammer2_io, the
--   hash of the buffers, hammer2_io_hash_lookup, hammer2_io_hash_enter and hammer2_io_alloc; Pages
--   hammer2_dev_bread and hammer2_dev_bwrite; Buffer hammer2_io_data, hammer2_bread and the part of
--   hammer2_io_getblk that fills a buffer; Get hammer2_io_getblk and its callers; Put
--   hammer2_io_putblk, the functions that write a buffer and drop it, and hammer2_io_hash_cleanup
--   with hammer2_io_hash_cleanup_all; Dedup the deduplication masks. A pointer to a buffer is the
--   base of the buffer, and a write through it replaces the buffer of that base in its chain of the
--   hash. View says what the buffers show of the volumes, which is the abstract state. Table and
--   Found are about the hash and io_alloc, Effects, Renewed, Loaded and Filled about the filling,
--   Origins, Stored and Coherent about getblk, Leak about a lock that is not given back and a
--   failed read, Cooled and Cleaned about the cleanup, Places, Dropped and Written about putblk,
--   Dedup.Marks about the masks.
-- - Tests: the theorems at concrete inputs.
--
-- They meet as the code does: freemap_alloc calls getradix, freemap_reserve and bmap_alloc;
-- freemap_init makes the leaves that try_alloc and freemap_adjust do not find; get_volume searches
-- the table that init_volumes has filled and verified; base_insert and base_delete start with a
-- base_find; sync_adjust works on the bitmaps that bmap_alloc marks; io_alloc finds the device of a
-- new buffer with get_volume.
--
-- Loops. The loops over arrays are recursion on the list or on the rounds left. The retry loop of
-- hammer2_freemap_alloc runs on fuel, and 4 * (total_size / 1GB + 2) is enough. The loop of
-- hammer2_getradix and the one that finds the 64KB buffer of a block stop in `panic` where the C
-- code would shift by the width of the word or not end; both are shown not to get there. The loop
-- of the callback over the blocks of a reference has 256 turns, which are all that a 4MB bitmap has
-- blocks for; the search of hammer2_base_insert for an empty slot has one turn more than the array
-- has entries. The cleanup of the hash of buffers has the HAMMER2_IOHASH_SIZE turns of its counter
-- maxscan, and ends earlier if it has freed enough.
--
-- Parameters. What the platform does is an argument: the size of a device, reads of the volume
-- headers, memory for them and their checksums (Media), the checksum of a name, the width of
-- unsigned long, whether a new freemap chain can be created at a key, and for the buffers the pages
-- of a device that can be read and written, memory and the bytes it comes with, and the ticks of a
-- second (Host).
--
-- Not modelled: the chain layer above the block arrays (lookup and creation of chains are seen by
-- the leaves that they give), references, the spinlocks, and memory allocation but in hammer2_io.c
-- and for the volume headers; the warning of hammer2_assert_cluster; of a freemap allocation's
-- buffer only the argument of hammer2_io_newnz; of the buffers dio->lock, which is held through an
-- operation, so that an operation is one step, the overflow of the count of references and of the
-- ticks, the statistics, the prints and buffer heads, which are not used there; the overflow of
-- int32_t lock counters, which is undefined in C; the wakeup of sleepers on that lock, who may
-- retry at any time here; the walk of the topology and of the live freemap in bulkfree, its
-- throttle beyond the counters and its dedup heuristic; flush, inodes, XOPs, messages, the VFS
-- layers and the tools.
pub mod Common
pub mod Dio
pub mod Disk
pub mod Subr
pub mod Freemap
pub mod Bulkfree
pub mod Ccms
pub mod Chain
pub mod Ondisk
pub mod Cluster
pub mod Trans
pub mod Tests
