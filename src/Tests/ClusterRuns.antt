-- ===== src/Tests/ClusterRuns.antt =====
-- A cluster of two PFSs, of which the first has a chain.
use windows_hammer2_dfly.Common.{ℕ, ◌≡◌, refl, false, none, some, [], ◌∷◌, ok}
use windows_hammer2_dfly.Freemap.Types.{Blockref}
use windows_hammer2_dfly.Cluster.{
  Item, Cluster, dummy_from_chain, focus_item, focus_items, is_null_chain, is_chain, rest_null,
  items_fit, check_focus, cluster_check,
}
use windows_hammer2_dfly.Cluster.Focus.{Checks, cluster_check-Checks}

abbrev chains : ℕ → Blockref
chains chain = record { type = 1; keybits = 0; key = 42; data_off = 4194304 }

abbrev one : Item
one = record { chain = some 7; error = 0 }

abbrev other : Item
other = record { chain = none; error = 0 }

abbrev pair : Cluster
pair = record { array = one ∷ other ∷ []; pmp = some (6 ∷ 0 ∷ []); focus = none; error = 2 }

abbrev focused : Cluster
focused = record pair { focus = some 7; error = 0 }

pair-passes : cluster_check chains pair 42 false ≡ ok (0, focused)
unfolding cluster_check focus_items focus_item check_focus items_fit rest_null is_chain
    is_null_chain
pair-passes = refl

-- The check forgets the error of a cluster made from one chain.
dummy-passes :
    cluster_check chains (dummy_from_chain 7 2 (some (6 ∷ []))) 42 false
    ≡ ok (0, dummy_from_chain 7 0 (some (6 ∷ [])))
unfolding cluster_check focus_items focus_item check_focus items_fit rest_null is_chain
    is_null_chain dummy_from_chain
dummy-passes = refl

cluster_check-Checks_example :
    Checks chains pair (6 ∷ 0 ∷ []) 42 false (cluster_check chains pair 42 false)
cluster_check-Checks_example = cluster_check-Checks chains pair (6 ∷ 0 ∷ []) 42 false refl
