-- ===== src/Gnb/Ngap/Status.antt =====
-- `HandlerAmfStatusIndication` of PacketRusher/internal/control_test_engine/gnb/ngap/handler.go.
pub mod Rebind
use g_cn_testbed_k8s.Base.{
  ℕ, zero, suc, ◌+◌, Bool, true, false, ◌&&◌, List, [], ◌∷◌, Option, none, some, Text, Result, ok,
  panic, ◌>>=◌, lookup, insert, ◌==◌, if◌then◌else◌, text_eq, Map,
}
use g_cn_testbed_k8s.Plmn.{hex_encode, index}
use g_cn_testbed_k8s.Gnb.State.{Gnb, GnbUe, GnbAmf, released}
use g_cn_testbed_k8s.Gnb.Amf.{get_plmn_support}
use g_cn_testbed_k8s.Gnb.Ngap.{Ie, unavailable_guami_list, Guami, UnavailableGuami}
use g_cn_testbed_k8s.Gnb.Ngap.Amf.{find_amf, remove_id}

-- The PLMN of an unavailable GUAMI, taken from the `%02x%02x%02x` of its octets.
unfoldable pub status_plmn : List ℕ → Result (Text × Text)
unfolding index hex_encode
status_plmn (a ∷ b ∷ c ∷ l) =
    let hex = hex_encode (a ∷ b ∷ c ∷ []) in
    (do
      h1 ← index hex 1
      h0 ← index hex 0
      h3 ← index hex 3
      h5 ← index hex 5
      h4 ← index hex 4
      h2 ← index hex 2
      ok (h1 ∷ h0 ∷ h3 ∷ [], if h2 == b'f' then h5 ∷ h4 ∷ [] else h2 ∷ h5 ∷ h4 ∷ []))
status_plmn _ = panic

-- The loop over the PLMNs of an AMF, from `j` on with the rounds that are left.
unfoldable pub supports_from : GnbAmf → Text × Text → Guami → ℕ → ℕ → Result Bool
supports_from amf plmn guami zero j = ok false
supports_from amf plmn guami (suc n) j = get_plmn_support amf j >>= λ s.
    if text_eq s.0 plmn.0
      && (text_eq s.1 plmn.1
          && (amf.region_id == guami.region_id
              && (amf.set_id == guami.set_id && amf.pointer == guami.pointer)))
    then ok true
    else supports_from amf plmn guami n (j + 1)

-- The loop over a pool that binds the UEs of the AMF `old` to the backup.
unfoldable pub rebind : Map GnbUe → Map ℕ → ℕ → GnbAmf → Map GnbUe
rebind heap [] old backup = heap
rebind heap ((k, p) ∷ pool) old backup = elim (lookup p heap) [
  | none ↦ rebind heap pool old backup
  | some ue ↦
      rebind
        (if ue.amf_id == old
          then insert p
              (record ue { amf_id = backup.amf_id; sctp_connection = backup.tnla.sctp_conn }) heap
          else heap)
        pool old backup
]

-- The loop over the AMFs, which `Range` takes from the pool as it was at the start.
unfoldable pub retire : Gnb → List ℕ → GnbAmf → Text × Text → Guami → Result Gnb
unfolding supports_from rebind remove_id
retire g [] backup plmn guami = ok g
retire g (id ∷ ids) backup plmn guami = elim (lookup id g.amf_heap) [
  | none ↦ retire g ids backup plmn guami
  | some old ↦ supports_from old plmn guami old.len_plmn 0 >>= λ retired.
      retire
        (if retired
          then record g {
            ue_heap =
                rebind (rebind g.ue_heap g.ue_pool old.amf_id backup) g.pr_ue_pool old.amf_id
                  backup;
            amf_pool = remove_id id g.amf_pool;
            sent = released old.tnla.sctp_conn ∷ g.sent;
          }
          else g)
        ids backup plmn guami
]

abbrev pub has_name : Option Text → GnbAmf → Bool
has_name none amf = false
has_name (some n) amf = text_eq amf.name n

-- The loop over the unavailable GUAMIs; without a backup AMF the handler returns.
unfoldable pub for_unavailable : Gnb → List UnavailableGuami → Result (Bool × Gnb)
unfolding status_plmn find_amf retire
for_unavailable g [] = ok (true, g)
for_unavailable g (u ∷ l) = status_plmn u.guami.plmn >>= λ plmn.
    elim (find_amf g.amf_heap g.amf_pool (has_name u.backup_amf_name)) [
      | none ↦ ok (false, g)
      | some (_, backup) ↦ retire g g.amf_pool backup plmn u.guami >>= λ g'. for_unavailable g' l
    ]

-- `HandlerAmfStatusIndication`
unfoldable pub handler_amf_status_indication : Gnb → List Ie → Result Gnb
unfolding for_unavailable
handler_amf_status_indication g [] = ok g
handler_amf_status_indication g (unavailable_guami_list v ∷ l) = for_unavailable g v >>= λ r.
    let rest = handler_amf_status_indication r.1 l in if r.0 then rest else ok r.1
handler_amf_status_indication g (_ ∷ l) = handler_amf_status_indication g l
