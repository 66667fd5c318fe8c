-- ===== src/Gnb/Ngap/Page.antt =====
-- `HandlerPaging` of PacketRusher/internal/control_test_engine/gnb/ngap/handler.go.
use g_cn_testbed_k8s.Base.{
  ℕ, false, List, [], ◌∷◌, Option, none, some, Result, ok, fatal, panic, blocked, ◌>>=◌,
  if◌then◌else◌,
}
use g_cn_testbed_k8s.Gnb.State.{Gnb}
use g_cn_testbed_k8s.Gnb.Pools.Paging.{add_paged_ue}
use g_cn_testbed_k8s.Gnb.Ngap.{Ie, ue_paging_identity, tai_list_for_paging}

-- The last paging identity of the message.
unfoldable pub scan_paging :
    List Ie → Option (Option (ℕ × List ℕ)) → Result (Option (Option (ℕ × List ℕ)))
scan_paging [] s = ok s
scan_paging (ue_paging_identity none ∷ l) s = fatal
scan_paging (ue_paging_identity (some v) ∷ l) s = scan_paging l (some v)
scan_paging (tai_list_for_paging false ∷ l) s = fatal
scan_paging (_ ∷ l) s = scan_paging l s

abbrev pub octets_behind : Option (ℕ × List ℕ) → List ℕ
octets_behind none = []
octets_behind (some (p, octets)) = octets

abbrev pub pointer_of : Option (ℕ × List ℕ) → Option ℕ
pointer_of none = none
pointer_of (some (p, octets)) = some p

-- `HandlerPaging` at the time `now`; `AddPagedUE` waits for the lock.
unfoldable pub handler_paging : ℕ → Gnb → List Ie → Result Gnb
unfolding scan_paging
handler_paging now g ies = scan_paging ies none >>= λ s. elim s [
  | none ↦ panic
  | some tmsi ↦
      if g.paged_locked
      then blocked
      else ok (
          add_paged_ue g (record {
            five_g_s_tmsi = pointer_of tmsi;
            tmsi = octets_behind tmsi;
            timestamp = now;
          }))
]
