-- ===== src/Gnb/Amf.antt =====
-- The AMF context of a gNodeB: PacketRusher/internal/control_test_engine/gnb/context/amf.go.
pub mod Lists
use g_cn_testbed_k8s.Base.{
  ℕ, zero, suc, ◌+◌, List, [], ◌∷◌, Option, none, some, Text, ◌==◌, if◌then◌else◌, Result, ok,
  panic, ◌>>=◌, or_panic, get_elem?,
}
use g_cn_testbed_k8s.Plmn.{convert_mcc_mnc}
use g_cn_testbed_k8s.Gnb.State.{GnbAmf, Plmn, Slice}

-- `mov` stands at the head of the list, and `i` rounds are left: behind the last node the element
-- is linked, and `mov` stays; elsewhere `mov` goes on to the next node.
pub link_rounds {ℓ} : {A : Type ℓ} → ℕ → A → List A → List A
link_rounds zero e mov = mov
link_rounds (suc i) e [] = []
link_rounds (suc i) e (x ∷ []) = link_rounds i e (x ∷ e ∷ [])
link_rounds (suc i) e (x ∷ y ∷ l) = x ∷ link_rounds i e (y ∷ l)

-- `AddedPlmn`
unfoldable pub added_plmn : GnbAmf → Text → Result GnbAmf
unfolding link_rounds
added_plmn amf plmn =
    if amf.len_plmn == 0
    then (do
      (mcc, mnc) ← convert_mcc_mnc plmn
      ok (record amf { plmns = record { mcc = mcc; mnc = mnc } ∷ []; len_plmn = amf.len_plmn + 1 }))
    else elim amf.plmns [
      | [] ↦ panic
      | head ∷ rest ↦ convert_mcc_mnc plmn >>= λ ids. ok (record amf {
        plmns = link_rounds amf.len_plmn (record { mcc = ids.0; mnc = ids.1 }) (head ∷ rest);
        len_plmn = amf.len_plmn + 1;
      })
    ]

-- `AddedSlice`
unfoldable pub added_slice : GnbAmf → Text → Text → Result GnbAmf
unfolding link_rounds
added_slice amf sst sd =
    if amf.len_slice == 0
    then ok
        (record amf { slices = record { sst = sst; sd = sd } ∷ []; len_slice = amf.len_slice + 1 })
    else elim amf.slices [
      | [] ↦ panic
      | head ∷ rest ↦ ok (record amf {
        slices = link_rounds amf.len_slice (record { sst = sst; sd = sd }) (head ∷ rest);
        len_slice = amf.len_slice + 1;
      })
    ]

-- `GetPlmnSupport` and `GetSliceSupport` walk `index` nodes on, and use the node there.
unfoldable pub get_plmn_support : GnbAmf → ℕ → Result (Text × Text)
get_plmn_support amf index = or_panic (get_elem? amf.plmns index) >>= λ mov. ok (mov.mcc, mov.mnc)

unfoldable pub get_slice_support : GnbAmf → ℕ → Result (Text × Text)
get_slice_support amf index = or_panic (get_elem? amf.slices index) >>= λ mov. ok (mov.sst, mov.sd)
