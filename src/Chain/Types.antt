-- ===== src/Chain/Types.antt =====
-- Block references, and the fields of a chain that its block array uses.
use windows_hammer2_dfly.Common.{ℕ, ◌+◌, Bool, List, ◌==◌, get_or}
use windows_hammer2_dfly.Common.Words.{u64, sub64, ◌<<<◌}

-- `struct hammer2_blockref`, with `embed.stats`; the fields that the block array only copies are
-- left out.
pub record Bref : Type 0 where
  pub type : ℕ
  pub keybits : ℕ
  pub leaf_count : ℕ
  pub key : ℕ
  pub data_off : ℕ
  pub data_count : ℕ
  pub inode_count : ℕ

-- bzero
abbrev pub blank : Bref
blank = record {
  type = 0;
  keybits = 0;
  leaf_count = 0;
  key = 0;
  data_off = 0;
  data_count = 0;
  inode_count = 0;
}

-- HAMMER2_BREF_TYPE_EMPTY is 0.
abbrev pub is_empty : Bref → Bool
is_empty e = e.type == 0

-- `scan->key + ((hammer2_key_t)1 << scan->keybits)`, and the last key of the entry.
abbrev pub next_key : Bref → ℕ
next_key e = u64 (e.key + u64 (1 <<< e.keybits))

abbrev pub last_key : Bref → ℕ
last_key e = sub64 (next_key e) 1

abbrev pub entry : List Bref → ℕ → Bref
entry base i = get_or base i blank

-- `embed.stats` and `leaf_count` of the parent's own blockref.
pub record Stats : Type 0 where
  pub data_count : ℕ
  pub inode_count : ℕ
  pub leaf_count : ℕ

-- HAMMER2_CHAIN_COUNTEDBREFS, `cache_index`, `core.live_zero` and `core.live_count`.
pub record Parent : Type 0 where
  pub counted : Bool
  pub cache_index : ℕ
  pub live_zero : ℕ
  pub live_count : ℕ
  pub stats : Stats
