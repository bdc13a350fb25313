-- ===== src/Dio/Cooled.antt =====
-- What `hammer2_io_hash_cleanup` does to a chain of the hash.
use windows_hammer2_dfly.Common.{
  ℕ, ◌≡◌, ◌≢◌, refl, sym, ap, ◌∙◌, subst, Option, none, some, List, [], ◌∷◌, ◌==◌, ==_iff,
  Bool-cases, inl, inr,
}
use windows_hammer2_dfly.Dio.Types.{Dio, find_dio}
use windows_hammer2_dfly.Dio.Pages.{Host}
use windows_hammer2_dfly.Dio.Put.{cooled, clean_chain}
use windows_hammer2_dfly.Dio.Table.{Distinct}

-- What becomes of the buffer of a base: nothing, or, without references, it is less active or gone.
pub data Cooled (old new : Option Dio) : Type 0 where
  alike : new ≡ old → Cooled old new
  cooler :
      (d : Dio) (act : ℕ)
      → old ≡ some d
      → d.refs ≡ 0
      → new ≡ some (record d { act = act })
      → Cooled old new
  dropped : (d : Dio) → old ≡ some d → d.refs ≡ 0 → new ≡ none → Cooled old new

pub none-ne-some : (d : Dio) → none ≢ some d
none-ne-some d h = cc

Cooled-none : {new : Option Dio} → Cooled none new → new ≡ none
Cooled-none (alike e) = e
Cooled-none (cooler d act e free e') = cc
Cooled-none (dropped d e free e') = e'

module _ (h : Host) (now q : ℕ) where
  kept_Cooled :
      (d : Dio) (ds kept : List Dio)
      → Cooled (find_dio q ds) (find_dio q kept)
      → Cooled (find_dio q (d ∷ ds)) (find_dio q (d ∷ kept))
  unfolding find_dio
  kept_Cooled d ds kept c = elim (Bool-cases (d.pbase == q)) [
    | inl t ↦ rw t (alike refl)
    | inr f ↦ rw f c
  ]

  cooler_Cooled :
      (d : Dio) (act : ℕ) (ds kept : List Dio)
      → d.refs ≡ 0
      → Cooled (find_dio q ds) (find_dio q kept)
      → Cooled (find_dio q (d ∷ ds)) (find_dio q (record d { act = act } ∷ kept))
  unfolding find_dio
  cooler_Cooled d act ds kept free c = elim (Bool-cases (d.pbase == q)) [
    | inl t ↦ rw t (cooler d act refl free refl)
    | inr f ↦ rw f c
  ]

  dropped_Cooled :
      (d : Dio) (ds kept : List Dio)
      → d.refs ≡ 0
      → find_dio d.pbase ds ≡ none
      → Cooled (find_dio q ds) (find_dio q kept)
      → Cooled (find_dio q (d ∷ ds)) (find_dio q kept)
  unfolding find_dio
  dropped_Cooled d ds kept free apart c = elim (Bool-cases (d.pbase == q)) [
    | inl t ↦
        let gone : find_dio q ds ≡ none =
          ap (λ (p : ℕ). find_dio p ds) (sym ((==_iff d.pbase q).0 t)) ∙ apart in
        rw t (
          dropped d refl free
            (Cooled-none (subst (λ (o : Option Dio). Cooled o (find_dio q kept)) gone c)))
    | inr f ↦ rw f c
  ]

  pub clean_chain-Cooled :
      (ds : List Dio) → Distinct ds → Cooled (find_dio q ds) (find_dio q (clean_chain h now ds).0)
  unfolding clean_chain
  clean_chain-Cooled [] apart = alike refl
  clean_chain-Cooled (d ∷ ds) (apart, rest) =
      let ih = clean_chain-Cooled ds rest in
      elim (Bool-cases (d.refs == 0)) [
        | inr held ↦ rw held (kept_Cooled d ds _ ih)
        | inl free ↦ elim (Bool-cases (cooled h now d == 0)) [
          | inr warm ↦
              rw (free, warm) (cooler_Cooled d (cooled h now d) ds _ ((==_iff d.refs 0).0 free) ih)
          | inl cold ↦ rw (free, cold) (dropped_Cooled d ds _ ((==_iff d.refs 0).0 free) apart ih)
        ]
      ]

module _ (h : Host) (now : ℕ) where
  still_none :
      (q : ℕ) (ds : List Dio)
      → Distinct ds
      → find_dio q ds ≡ none
      → find_dio q (clean_chain h now ds).0 ≡ none
  still_none q ds apart e = Cooled-none (
      subst (λ (o : Option Dio). Cooled o (find_dio q (clean_chain h now ds).0)) e
        (clean_chain-Cooled h now q ds apart))

  pub clean_chain-Distinct : (ds : List Dio) → Distinct ds → Distinct (clean_chain h now ds).0
  unfolding clean_chain
  clean_chain-Distinct [] apart = apart
  clean_chain-Distinct (d ∷ ds) (apart, rest) =
      let ih = clean_chain-Distinct ds rest in
      elim (Bool-cases (d.refs == 0)) [
        | inr held ↦ rw held (still_none d.pbase ds rest apart, ih)
        | inl free ↦ elim (Bool-cases (cooled h now d == 0)) [
          | inr warm ↦ rw (free, warm) (still_none d.pbase ds rest apart, ih)
          | inl cold ↦ rw (free, cold) ih
        ]
      ]
