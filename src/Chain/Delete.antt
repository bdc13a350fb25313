-- ===== src/Chain/Delete.antt =====
-- `hammer2_base_delete`.
pub mod Refine
use windows_hammer2_dfly.Common.{
  ℕ, zero, suc, ◌+◌, ◌-◌, Bool, true, false, not, ◌&&◌, ◌||◌, List, Option, some, ltb, leb, ◌==◌,
  if◌then◌else◌, get_or, set, Checked, ok, panic, ◌>>=◌, ◌>>◌, assert,
}
use windows_hammer2_dfly.Chain.Types.{Bref, blank, is_empty, entry, Stats, Parent}
use windows_hammer2_dfly.Chain.Find.{Lookup, base_find, used_end}
use windows_hammer2_dfly.Chain.Account.{Hinted, account_delete}
use windows_hammer2_dfly.Chain.Insert.{Flags}

-- The parent and the array afterwards, `*obref`, and the chain's flags.
pub record Deleted : Type 0 where
  pub parent : Parent
  pub base : List Bref
  pub obref : Bref
  pub flags : Flags

-- `live_zero` after entry `i` has been cleared.
unfoldable pub lowered_limit : List Bref → ℕ → ℕ → ℕ
lowered_limit base live_zero i = if live_zero == i + 1 then used_end base i else live_zero

unfoldable pub delete_at : Parent → List Bref → Flags → ℕ → Deleted
delete_at p base flags i =
    let scan = entry base i in
    let h = account_delete scan (record { stats = p.stats; hint = flags.hint_leaf_count }) in
    let cleared = set base i blank in
    record {
      parent = record p { stats = h.stats; live_zero = lowered_limit cleared p.live_zero i };
      base = cleared;
      obref = scan;
      flags = record { blkmapped = false; blkmapupd = false; hint_leaf_count = h.hint };
    }

-- The entry that the search found is not the element.
unfoldable pub mismatch : List Bref → ℕ → ℕ → Flags → Bref → Bool
mismatch base count i flags elm =
    (i == count)
    || is_empty (entry base i)
    || not ((entry base i).key == elm.key)
    || (not flags.blkmapupd && not ((entry base i).keybits == elm.keybits))

unfoldable pub base_delete : Parent → List Bref → ℕ → Flags → Bref → Checked Deleted
base_delete p base count flags elm = do
  f ← base_find p (some base) count 0 elm.key
  assert (not (mismatch base count f.index flags elm))
  ok (delete_at (record p { cache_index = f.cache_index }) base flags f.index)
