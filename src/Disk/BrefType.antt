-- ===== src/Disk/BrefType.antt =====
-- HAMMER2_BREF_TYPE_*: the types of blockrefs.
use windows_hammer2_dfly.Common.{ℕ}

abbrev pub inode : ℕ
inode = 1

abbrev pub indirect : ℕ
indirect = 2

abbrev pub content : ℕ
content = 3

abbrev pub dirent : ℕ
dirent = 4

abbrev pub freemap_node : ℕ
freemap_node = 5

abbrev pub freemap_leaf : ℕ
freemap_leaf = 6
