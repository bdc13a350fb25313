-- ===== src/Cluster.antt =====
-- hammer2_cluster.c: the collection of the chains of one element, one per PFS of a cluster, and
-- its focus. Chains are numbers, pointers to them options; `chains` is what a pointer points to.
pub mod Last
pub mod Focus
use windows_hammer2_dfly.Common.{
  ℕ, zero, suc, ◌+◌, Bool, true, false, not, ◌&&◌, ◌||◌, Option, none, some, List, [], ◌∷◌, ◌==◌,
  if◌then◌else◌, get_or, Checked, ok, panic, ◌>>=◌, ◌>>◌, assert,
}
use windows_hammer2_dfly.Freemap.Types.{Blockref}

-- HAMMER2_PFSTYPE_NONE, _MASTER and _SUPROOT
abbrev pub pfstype_none : ℕ
pfstype_none = 0

abbrev pub pfstype_master : ℕ
pfstype_master = 6

abbrev pub pfstype_suproot : ℕ
pfstype_suproot = 8

-- HAMMER2_ERROR_EIO and HAMMER2_ERROR_ENOENT
abbrev pub error_eio : ℕ
error_eio = 1

abbrev pub error_enoent : ℕ
error_enoent = 64

pub record Item : Type 0 where
  pub chain : Option ℕ
  pub error : ℕ

-- `array` has `nchains` items; `pmp` is `pfs_types` of the PFS.
pub record Cluster : Type 0 where
  pub array : List Item
  pub pmp : Option (List ℕ)
  pub focus : Option ℕ
  pub error : ℕ

-- The type of the focus, 0 for a cluster with an error.
unfoldable pub cluster_type : (ℕ → Blockref) → Cluster → Checked ℕ
cluster_type chains c =
    if c.error == 0
    then elim c.focus [ none ↦ panic | some chain ↦ ok (chains chain).type ]
    else ok 0

unfoldable pub cluster_bref : (ℕ → Blockref) → Cluster → Checked Blockref
cluster_bref chains c =
    if c.error == 0
    then elim c.focus [ none ↦ panic | some chain ↦ ok (record (chains chain) { data_off = 0 }) ]
    else ok (record { type = 0; keybits = 0; key = 0; data_off = 0 })

-- `hammer2_dummy_xop_from_chain` for a chain with an error code and a PFS.
unfoldable pub dummy_from_chain : ℕ → ℕ → Option (List ℕ) → Cluster
dummy_from_chain chain error pmp = record {
  array = record { chain = some chain; error = 0 } ∷ [];
  pmp = pmp;
  focus = some chain;
  error = error;
}

-- The switch on the type of one PFS.
unfoldable pub focus_item : ℕ → Item → Cluster → Checked Cluster
focus_item type item c =
    if type == pfstype_master || type == pfstype_suproot
    then ok (record c { focus = item.chain; error = item.error })
    else if type == pfstype_none
    then ok c
    else panic

-- The first loop, from index `i` on.
unfoldable pub focus_items : List ℕ → ℕ → List Item → Cluster → Checked Cluster
focus_items types i [] c = ok c
focus_items types i (item ∷ items) c =
    focus_item (get_or types i 0) item c >>= λ d. focus_items types (i + 1) items d

unfoldable pub is_null_chain : Option ℕ → Bool
is_null_chain none = true
is_null_chain (some chain) = false

unfoldable pub is_chain : Option ℕ → ℕ → Bool
is_chain none focus = false
is_chain (some chain) focus = chain == focus

-- The last loop: the first item is the focus and has the key, the others are NULL.
unfoldable pub rest_null : List Item → Bool
rest_null [] = true
rest_null (item ∷ items) = is_null_chain item.chain && rest_null items

unfoldable pub items_fit : (ℕ → Blockref) → ℕ → ℕ → List Item → Bool
items_fit chains key focus [] = true
items_fit chains key focus (item ∷ items) =
    is_chain item.chain focus && (chains focus).key == key && rest_null items

-- The end of `hammer2_cluster_check`, with the focus found.
unfoldable pub check_focus : (ℕ → Blockref) → ℕ → Bool → Cluster → Checked (ℕ × Cluster)
check_focus chains key check_null c =
    if check_null
    then (if c.error == 0
        then ok (error_enoent, record c { error = error_enoent })
        else ok (c.error, c))
    else elim c.focus [
      | none ↦ ok (error_eio, c)
      | some focus ↦ assert (items_fit chains key focus c.array) >>= λ _. ok (c.error, c)
    ]

-- hammer2_assert_cluster only warns.
unfoldable pub cluster_check : (ℕ → Blockref) → Cluster → ℕ → Bool → Checked (ℕ × Cluster)
cluster_check chains cluster key check_null = elim cluster.pmp [
  | none ↦ panic
  | some types ↦
      focus_items types 0 cluster.array (record cluster { focus = none; error = 0 }) >>= λ c.
      check_focus chains key check_null c
]
