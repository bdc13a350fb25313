-- ===== src/Chain/Insert.antt =====
-- `hammer2_base_insert`.
pub mod Splice
pub mod Sorted
pub mod Slot
pub mod Refine
use windows_hammer2_dfly.Common.{
  ℕ, zero, suc, ◌+◌, ◌-◌, ◌*◌, ◌^◌, Bool, true, false, not, ◌&&◌, ◌||◌, List, [], ◌∷◌, Option, none,
  some, ltb, leb, ◌==◌, if◌then◌else◌, get_or, set, length, Checked, ok, panic, ◌>>=◌, ◌>>◌, assert,
}
use windows_hammer2_dfly.Chain.Types.{
  Bref, blank, is_empty, next_key, last_key, entry, Stats, Parent,
}
use windows_hammer2_dfly.Chain.Find.{Lookup, base_find}
use windows_hammer2_dfly.Chain.Account.{account_insert}

-- memmove(&base[j], &base[j + 1], n)
unfoldable pub slide_down : ℕ → ℕ → List Bref → List Bref
slide_down j n [] = []
slide_down (suc j) n (x ∷ xs) = x ∷ slide_down j n xs
slide_down zero zero (x ∷ xs) = x ∷ xs
slide_down zero (suc n) (x ∷ []) = x ∷ []
slide_down zero (suc n) (x ∷ y ∷ ys) = y ∷ slide_down zero n (y ∷ ys)

-- The entries after `x`, `n` of them one place up.
unfoldable pub push_up : ℕ → Bref → List Bref → List Bref
push_up n x [] = []
push_up zero x (y ∷ ys) = y ∷ ys
push_up (suc n) x (y ∷ ys) = x ∷ push_up n y ys

-- memmove(&base[i + 1], &base[i], n)
unfoldable pub slide_up : ℕ → ℕ → List Bref → List Bref
slide_up i n [] = []
slide_up (suc i) n (x ∷ xs) = x ∷ slide_up i n xs
slide_up zero n (x ∷ xs) = x ∷ push_up n x xs

-- An empty slot before or after the place of the entry.
pub data Room : Type 0 where
  before : (j : ℕ) → Room
  after : (k : ℕ) → Room
  no_room : Room

-- Turn `t` of the search from index `i`, with the turns left: `j` is i - t and `k` is i + t.
unfoldable pub find_room : ℕ → List Bref → ℕ → ℕ → ℕ → Room
find_room zero base count i t = no_room
find_room (suc left) base count i t =
    let later = find_room left base count i (t + 1) in
    if leb t i || ltb (i + t - 1) count
    then (if leb t i && is_empty (entry base (i - t))
        then before (i - t)
        else if ltb (i + t) count && is_empty (entry base (i + t))
        then after (i + t)
        else later)
    else no_room

-- The check of the whole array that ends an insertion.
unfoldable pub validate_after : ℕ → List Bref → Checked (Unit {0})
validate_after key_next [] = ok tt
validate_after key_next (e ∷ es) =
    let skipped = validate_after key_next es in
    let further = validate_after (last_key e) es in
    if is_empty e then skipped else if leb e.key key_next then panic else further

unfoldable pub validate : List Bref → Checked (Unit {0})
validate [] = ok tt
validate (e ∷ es) =
    let skipped = validate es in if is_empty e then skipped else validate_after (last_key e) es

-- The parent and the array afterwards.
pub record Inserted : Type 0 where
  pub parent : Parent
  pub base : List Bref

-- From the search for an empty slot on.
unfoldable pub put_entry : Parent → List Bref → ℕ → ℕ → Bref → Room → Checked Inserted
put_entry p base count i elm no_room = panic
put_entry p base count i elm (before j) =
    let moved =
      if j == i - 1 then set base j elm else set (slide_down j (i - j - 1) base) (i - 1) elm in
    validate moved >> ok (record { parent = p; base = moved })
put_entry p base count i elm (after k) =
    let moved = set (slide_up i (k - i) base) i elm in
    validate moved
    >> ok (record {
      parent = if leb p.live_zero k then record p { live_zero = k + 1 } else p;
      base = moved;
    })

-- From the statistics on, for the index `i` that the search has found.
unfoldable pub insert_at : Parent → List Bref → ℕ → ℕ → Bref → Checked Inserted
insert_at p base count i elm =
    let overlap = ltb (entry base i).key elm.key || leb (entry base i).key (last_key elm) in
    if (i == count) && ltb p.live_zero count
    then ok (record {
      parent = record p { live_zero = p.live_zero + 1 };
      base = set base p.live_zero elm;
    })
    else if not (i == count) && overlap
    then panic
    else put_entry p base count i elm (find_room (count + 1) base count i 1)

-- HAMMER2_CHAIN_BLKMAPPED and the other flags of the chain that is inserted or deleted.
pub record Flags : Type 0 where
  pub blkmapped : Bool
  pub blkmapupd : Bool
  pub hint_leaf_count : Bool

-- The flags after an insertion; `none` is a chain of NULL.
unfoldable pub mapped : Option Flags → Option Flags
mapped none = none
mapped (some f) = some (record f { blkmapped = true })

unfoldable pub base_insert :
    Parent → List Bref → ℕ → Option Flags → Bref → Checked (Inserted × Option Flags)
base_insert p base count chain elm = do
  f ← base_find p (some base) count 0 elm.key
  assert (leb f.index count)
  r ←
      insert_at (record p { cache_index = f.cache_index; stats = account_insert elm p.stats }) base
        count f.index elm
  ok (r, mapped chain)
