-- ===== src/Gnb/Amf/Lists.antt =====
-- The linked lists of an AMF hold what was added, in order.
use g_cn_testbed_k8s.Base.{
  ◌+◌, ◌≡◌, refl, ap, List, [], ◌∷◌, ◌++◌, Text, ok, arith, length, ◌⊎◌, inl, inr,
}
use g_cn_testbed_k8s.Plmn.{convert_mcc_mnc}
use g_cn_testbed_k8s.Gnb.State.{GnbAmf}
use g_cn_testbed_k8s.Gnb.Amf.{link_rounds, added_plmn, added_slice}

-- As many rounds as there are nodes link the element once, at the end.
link_rounds-append {ℓ} :
    {A : Type ℓ} (e x : A) (l : List A) → link_rounds (length (x ∷ l)) e (x ∷ l) ≡ (x ∷ l) ++ e ∷ []
unfolding link_rounds
link_rounds-append e x [] = refl
link_rounds-append e x (y ∷ l) = ap (◌∷◌ x) (link_rounds-append e y l)

-- The counters are the lengths of the lists.
pub record IsCounted (amf : GnbAmf) : Type 0 where
  pub plmn_count : amf.len_plmn ≡ length amf.plmns
  pub slice_count : amf.len_slice ≡ length amf.slices

List-cases {ℓ} : {A : Type ℓ} (l : List A) → (l ≡ []) ⊎ ((x : A) × (r : List A) × (l ≡ x ∷ r))
List-cases [] = inl refl
List-cases (x ∷ r) = inr (x, r, refl)

-- With counters that are the lengths, `AddedSlice` puts the slice at the end of the list, counts it,
-- and changes nothing else.
pub added_slice-append :
    (amf : GnbAmf) (sst sd : Text)
    → IsCounted amf
    → added_slice amf sst sd
      ≡ ok (record amf {
        slices = amf.slices ++ record { sst = sst; sd = sd } ∷ [];
        len_slice = amf.len_slice + 1;
      })
unfolding added_slice
added_slice-append amf sst sd v = elim (List-cases amf.slices) [
  | inl e ↦ ground arith
  | inr (x, r, e) ↦ ground (arith, link_rounds-append (record { sst = sst; sd = sd }) x r)
]

-- With counters that are the lengths, a PLMN that `convertMccMnc` reads is put at the end of the
-- list by `AddedPlmn`, which counts it and changes nothing else.
pub added_plmn-append :
    (amf : GnbAmf) (plmn mcc mnc : Text)
    → IsCounted amf
    → convert_mcc_mnc plmn ≡ ok (mcc, mnc)
    → added_plmn amf plmn
      ≡ ok (record amf {
        plmns = amf.plmns ++ record { mcc = mcc; mnc = mnc } ∷ [];
        len_plmn = amf.len_plmn + 1;
      })
unfolding added_plmn
added_plmn-append amf plmn mcc mnc v c = elim (List-cases amf.plmns) [
  | inl e ↦ ground arith
  | inr (x, r, e) ↦ ground (arith, link_rounds-append (record { mcc = mcc; mnc = mnc }) x r)
]
