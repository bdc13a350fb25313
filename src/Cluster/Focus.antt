-- ===== src/Cluster/Focus.antt =====
-- What `hammer2_cluster_check` makes of a cluster.
use windows_hammer2_dfly.Common.{
  ℕ, zero, suc, ◌+◌, ◌<◌, ◌≡◌, ◌≢◌, refl, sym, ◌∙◌, subst, Bool, true, false, false≢true, Option,
  none, some, List, [], ◌∷◌, ◌==◌, length, get_or, Bool-cases, Checked, ok, panic, ◌>>=◌, inl, inr,
  arith,
}
use windows_hammer2_dfly.Freemap.Types.{Blockref}
use windows_hammer2_dfly.Cluster.{
  Item, Cluster, error_eio, error_enoent, focus_items, is_null_chain, is_chain, rest_null,
  items_fit, check_focus, cluster_check,
}
use windows_hammer2_dfly.Cluster.Last.{
  null_item, is_known, Looped, refused, unmoved, moved, IsFocus, unfocused, focused,
  focus_items-Looped,
}

-- The chain of the item at a place.
abbrev pub place_of : ℕ → ℕ → Option ℕ
place_of f zero = some f
place_of f (suc j) = none

-- The first chain is the focus `f` and has the key, and the other items have none.
pub record IsFit (chains : ℕ → Blockref) (key f : ℕ) (items : List Item) : Type 0 where
  pub only : (j : ℕ) → j < length items → (get_or items j null_item).chain ≡ place_of f j
  pub keyed : 0 < length items → (chains f).key ≡ key

rest_null-none :
    (items : List Item)
    → rest_null items ≡ true
    → (j : ℕ) → j < length items
    → (get_or items j null_item).chain ≡ none
unfolding rest_null is_null_chain
rest_null-none [] h j lt = absurd (omega arith)
rest_null-none (item ∷ items) h zero lt = ground arith
rest_null-none (item ∷ items) h (suc j) lt = rest_null-none items (ground arith) j (omega arith)

none-rest_null :
    (items : List Item)
    → ((j : ℕ) → j < length items → (get_or items j null_item).chain ≡ none)
    → rest_null items ≡ true
unfolding rest_null is_null_chain
none-rest_null [] h = refl
none-rest_null (item ∷ items) h =
    let first = h 0 (omega arith) in
    let rest = none-rest_null items (λ j lt. h (suc j) (omega arith)) in ground arith

module _ (chains : ℕ → Blockref) (key f : ℕ) where
  items_fit-IsFit :
      (items : List Item) → items_fit chains key f items ≡ true → IsFit chains key f items
  unfolding items_fit is_chain
  items_fit-IsFit [] h = record {
    only = λ j lt. absurd (omega arith);
    keyed = λ lt. absurd (omega arith);
  }
  items_fit-IsFit (item ∷ items) h = record { only = place; keyed = λ lt. ground arith }
    where
      place :
          (j : ℕ)
          → j < suc (length items)
          → (get_or (item ∷ items) j null_item).chain ≡ place_of f j
      place zero lt = ground arith
      place (suc j) lt = rest_null-none items (ground arith) j (omega arith)

  IsFit-items_fit :
      (items : List Item) → IsFit chains key f items → items_fit chains key f items ≡ true
  unfolding items_fit is_chain
  IsFit-items_fit [] fit = refl
  IsFit-items_fit (item ∷ items) fit =
      let first = fit.only 0 (omega arith) in
      let keyed = fit.keyed (omega arith) in
      let rest = none-rest_null items (λ j lt. fit.only (suc j) (omega arith)) in ground arith

-- What the check returns: the error and the cluster, or a failed assertion.
pub data Checks (chains : ℕ → Blockref) (cluster : Cluster) (types : List ℕ) (key : ℕ)
    (check_null : Bool) : Checked (ℕ × Cluster) → Type 0 where
  bad_type :
      (j : ℕ)
      → j < length cluster.array
      → is_known (get_or types j 0) ≡ false
      → Checks chains cluster types key check_null panic
  null_without :
      (focus : Option ℕ)
      → IsFocus types cluster.array focus 0
      → check_null ≡ true
      → Checks chains cluster types key check_null
          (ok (error_enoent, record cluster { focus = focus; error = error_enoent }))
  null_with :
      (focus : Option ℕ) (error : ℕ)
      → IsFocus types cluster.array focus error
      → error ≢ 0
      → check_null ≡ true
      → Checks chains cluster types key check_null
          (ok (error, record cluster { focus = focus; error = error }))
  no_focus :
      (error : ℕ)
      → IsFocus types cluster.array none error
      → check_null ≡ false
      → Checks chains cluster types key check_null
          (ok (error_eio, record cluster { focus = none; error = error }))
  fits :
      (f error : ℕ)
      → IsFocus types cluster.array (some f) error
      → check_null ≡ false
      → IsFit chains key f cluster.array
      → Checks chains cluster types key check_null
          (ok (error, record cluster { focus = some f; error = error }))
  differs :
      (f error : ℕ)
      → IsFocus types cluster.array (some f) error
      → check_null ≡ false
      → ¬ IsFit chains key f cluster.array
      → Checks chains cluster types key check_null panic

module _ (chains : ℕ → Blockref) (cluster : Cluster) (types : List ℕ) (key : ℕ) where
  check_focus-Checks :
      (check_null : Bool) (focus : Option ℕ) (error : ℕ)
      → IsFocus types cluster.array focus error
      → Checks chains cluster types key check_null
          (check_focus chains key check_null (record cluster { focus = focus; error = error }))
  unfolding check_focus
  check_focus-Checks true focus zero is = null_without focus is refl
  check_focus-Checks true focus (suc n) is =
      let some_error : (suc n == 0) ≡ false = ground arith in
      rw some_error (null_with focus (suc n) is (omega arith) refl)
  check_focus-Checks false none error is = no_focus error is refl
  check_focus-Checks false (some f) error is =
      elim (Bool-cases (items_fit chains key f cluster.array)) [
        | inl t ↦ rw t (fits f error is refl (items_fit-IsFit chains key f cluster.array t))
        | inr misfit ↦ rw misfit (
            differs f error is refl
              (λ fit. false≢true (sym misfit ∙ IsFit-items_fit chains key f cluster.array fit)))
      ]

  Looped-Checks :
      (check_null : Bool) (m : Checked Cluster)
      → Looped types 0 cluster.array (record cluster { focus = none; error = 0 }) m
      → Checks chains cluster types key check_null (m >>= λ c. check_focus chains key check_null c)
  Looped-Checks check_null _ (refused j lt bad) =
      let e : 0 + j ≡ j = omega arith in
      bad_type j lt (subst (λ (m : ℕ). is_known (get_or types m 0) ≡ false) e bad)
  Looped-Checks check_null _ (unmoved rest) = check_focus-Checks check_null none 0 (unfocused rest)
  Looped-Checks check_null _ (moved j rest) = check_focus-Checks check_null _ _ (focused j rest)

-- `hammer2_cluster_check` of a cluster with a PFS, on every branch. If a type is none of NONE, MASTER
-- and SUPROOT, it panics. Otherwise the focus and the error are those of the last item whose type is
-- MASTER or SUPROOT, or none. With HAMMER2_CHECK_NULL it returns that error, or ENOENT if there is
-- none. Without, it returns EIO if there is no focus, the error if the first chain is the focus, has
-- the key, and is the only chain, and fails in an assertion otherwise.
pub cluster_check-Checks :
    (chains : ℕ → Blockref) (cluster : Cluster) (types : List ℕ) (key : ℕ) (check_null : Bool)
    → cluster.pmp ≡ some types
    → Checks chains cluster types key check_null (cluster_check chains cluster key check_null)
unfolding cluster_check
cluster_check-Checks chains cluster types key check_null there =
    let start = record cluster { focus = none; error = 0 } in
    let run : Option (List ℕ) → Checked (ℕ × Cluster) = λ pmp. elim pmp [
      | none ↦ panic
      | some ts ↦ focus_items ts 0 cluster.array start >>= λ c. check_focus chains key check_null c
    ] in
    subst (λ (pmp : Option (List ℕ)). Checks chains cluster types key check_null (run pmp))
      (sym there)
      (Looped-Checks chains cluster types key check_null _
        (focus_items-Looped types 0 cluster.array start))
