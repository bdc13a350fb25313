-- ===== src/Chain/Combined.antt =====
-- `hammer2_chain_find` and `hammer2_combined_find`: the search of the chains in memory, and of them
-- and the block array together.
pub mod Children
pub mod Nearer
use windows_hammer2_dfly.Common.{
  ℕ, zero, suc, ◌+◌, Bool, true, false, not, ◌&&◌, ◌||◌, List, [], ◌∷◌, Option, none, some, ltb,
  leb, ◌==◌, if◌then◌else◌, Checked, ok, panic, ◌>>=◌, ◌>>◌, assert,
}
use windows_hammer2_dfly.Common.Words.{u64}
use windows_hammer2_dfly.Chain.Types.{Bref, is_empty, next_key, last_key, entry, Parent}
use windows_hammer2_dfly.Chain.Find.{Lookup, nearer_key, base_find}

-- `struct hammer2_chain_find_info` without its bounds; a chain is seen by its blockref.
pub record FindInfo : Type 0 where
  pub best : Option Bref
  pub key_next : ℕ

-- `hammer2_chain_find_cmp` gives 0: the child meets the range.
abbrev pub in_range : ℕ → ℕ → Bref → Bool
in_range key_beg key_end child = not (ltb (last_key child) key_beg) && not (ltb key_end child.key)

-- The end of the callback: `key_next` is brought down to the end of the child.
unfoldable pub past_child : Bref → FindInfo → FindInfo
past_child child info = record info { key_next = nearer_key (next_key child) info.key_next }

-- `info->key_next > key || info->key_next == 0`
abbrev pub lowered : ℕ → ℕ → ℕ
lowered key key_next = if ltb key key_next || key_next == 0 then key else key_next

unfoldable pub nearer_child : ℕ → Bref → Bref → ℕ → Checked FindInfo
nearer_child key_beg best child key_next =
    if leb best.key key_beg && leb child.key key_beg
    then panic
    else if ltb child.key best.key
    then ok (record { best = some child; key_next = lowered best.key key_next })
    else if child.key == best.key
    then panic
    else ok (record { best = some best; key_next = lowered child.key key_next })

unfoldable pub find_callback : ℕ → Bref → FindInfo → Checked FindInfo
find_callback key_beg child info = elim (info.best) [
  | none ↦ ok (past_child child (record info { best = some child }))
  | some best ↦
      nearer_child key_beg best child info.key_next >>= λ nearer. ok (past_child child nearer)
]

-- RB_SCAN over the children, in the order of the tree.
unfoldable pub scan_children : ℕ → ℕ → List Bref → FindInfo → Checked FindInfo
scan_children key_beg key_end [] info = ok info
scan_children key_beg key_end (child ∷ children) info =
    let skipped = scan_children key_beg key_end children info in
    let visited =
      find_callback key_beg child info >>= λ next. scan_children key_beg key_end children next in
    if in_range key_beg key_end child then visited else skipped

unfoldable pub chain_find : List Bref → ℕ → ℕ → ℕ → Checked FindInfo
chain_find children key_next key_beg key_end =
    scan_children key_beg key_end children (record { best = none; key_next = key_next })

-- What is returned: nothing, a chain in memory, or an entry of the block array.
pub data Choice : Type 0 where
  nothing : Choice
  chain_choice : Bref → Choice
  entry_choice : ℕ → Choice

-- The label `found`: a blockref beyond the range is none.
abbrev pub limited : ℕ → ℕ → Choice → Choice
limited key_end key choice = if ltb key_end key then nothing else choice

unfoldable pub choose : List Bref → ℕ → ℕ → ℕ → ℕ → Option Bref → Checked Choice
choose base count i key_beg key_end none =
    ok (if i == count then nothing else limited key_end (entry base i).key (entry_choice i))
choose base count i key_beg key_end (some c) =
    let b = entry base i in
    if i == count
    then ok (limited key_end c.key (chain_choice c))
    else if (leb c.key key_beg && leb b.key key_beg) || c.key == b.key
    then assert (c.key == b.key) >> ok (limited key_end c.key (chain_choice c))
    else if ltb c.key b.key
    then ok (limited key_end c.key (chain_choice c))
    else ok (limited key_end b.key (entry_choice i))

-- The choice, `*key_nextp` and the parent's `cache_index`.
pub record Combined : Type 0 where
  pub choice : Choice
  pub key_next : ℕ
  pub cache_index : ℕ

-- The entries of an array that may be NULL; those of NULL are not read.
abbrev pub entries_of : Option (List Bref) → List Bref
entries_of none = []
entries_of (some base) = base

unfoldable pub combined_find :
    Parent → Option (List Bref) → ℕ → ℕ → ℕ → List Bref → Checked Combined
combined_find p base count key_beg key_end children = do
  f ← base_find p base count (u64 (key_end + 1)) key_beg
  info ← chain_find children f.key_next key_beg key_end
  choice ← choose (entries_of base) count f.index key_beg key_end info.best
  ok (record { choice = choice; key_next = info.key_next; cache_index = f.cache_index })
