-- ===== src/Examples/Gnbs.antt =====
-- Examples for the gNodeB.
use g_cn_testbed_k8s.Base.{
  ℕ, zero, suc, ◌≡◌, ◌≢◌, refl, List, [], ◌∷◌, ◌++◌, Option, none, some, codes, ok, arith, lookup,
  insert, if◌then◌else◌, ◌==◌, replicate, get_elem?, set, text_eq,
}
use g_cn_testbed_k8s.Gnb.State.{
  Gnb, GnbUe, GnbPduSession, PagedUe, ready, active, path_switch_request, to_amf,
}
use g_cn_testbed_k8s.Gnb.Amf.Lists.{IsCounted}
use g_cn_testbed_k8s.Gnb.Ue.{is_wanted_nssai, answer, create_pdu_session, with_table}
use g_cn_testbed_k8s.Gnb.Ue.Table.{IsTable}
use g_cn_testbed_k8s.Gnb.Pools.{
  select_amf_by_active, store_ue, new_gnb_ue, get_gnb_ue, get_gnb_ue_by_pr_ue_id,
  get_gnb_ue_by_teid, delete_gnb_ue, select_loop,
}
use g_cn_testbed_k8s.Gnb.Pools.Ids.{IsPools, get-new_gnb_ue, new_gnb_ue-IsPools}
use g_cn_testbed_k8s.Gnb.Pools.Select.{IsSelection, select-IsSelection}
use g_cn_testbed_k8s.Gnb.Pools.Release.{has_teid, lookups-delete_gnb_ue}
use g_cn_testbed_k8s.Gnb.Pools.Paging.{
  here, next, page, expire, add_paged_ue, expire_paged_ue, get_paged_ues, paged_forever,
}
use g_cn_testbed_k8s.Gnb.Ngap.{Association, Ie, to_remove_list, relative_amf_capacity}
use g_cn_testbed_k8s.Gnb.Ngap.Amf.{scan_setup, handler_ng_setup_response, put_amf}
use g_cn_testbed_k8s.Gnb.Ngap.Amf.Setup.{setup-active}
use g_cn_testbed_k8s.Gnb.Ngap.Status.{rebind}
use g_cn_testbed_k8s.Gnb.Ngap.Status.Rebind.{rebind-none_left}
use g_cn_testbed_k8s.Gnb.Ngap.Update.{Update, scan_update}
use g_cn_testbed_k8s.Gnb.Ngap.Update.Removed.{removes-sender, IsClosing}
use g_cn_testbed_k8s.Gnb.Nas.{gnb_listen, process}
use g_cn_testbed_k8s.Gnb.Nas.Handover.{handed_over, xn-path_switch}
use g_cn_testbed_k8s.Examples.Data.{value_or, amf_with, gnb_ue, gnb_1, session_with, gnb_env}

select-IsSelection_example : IsSelection gnb_1 (select_amf_by_active gnb_1)
select-IsSelection_example = select-IsSelection gnb_1

gnb_1-IsPools : IsPools gnb_1
unfolding lookup
gnb_1-IsPools = record {
  fresh = λ id p e. ground arith;
  old = λ id p e. ground arith;
  named = λ id p e. (gnb_ue, ground arith, ground arith);
}

get-new_gnb_ue_example :
    (get_gnb_ue gnb_1 2 ≡ none)
    × (get_gnb_ue (new_gnb_ue gnb_1 (some 30) (some 31) 5 none).0 1
        ≡ (if 2 == 1 then some 1 else get_gnb_ue gnb_1 1))
get-new_gnb_ue_example = get-new_gnb_ue gnb_1 (some 30) (some 31) 5 1 none gnb_1-IsPools

new_gnb_ue-IsPools_example : IsPools (new_gnb_ue gnb_1 (some 30) (some 31) 5 none).0
new_gnb_ue-IsPools_example =
    new_gnb_ue-IsPools gnb_1 (some 30) (some 31) 5 none (omega arith) gnb_1-IsPools

abbrev no_amfs : Gnb
no_amfs = record gnb_1 { amf_heap = []; amf_pool = [] }

lookups-delete_gnb_ue_example :
    (get_gnb_ue (value_or gnb_1 (delete_gnb_ue gnb_1 0)) 1
      ≡ (if 1 == 1 then none else get_gnb_ue gnb_1 1))
    × (get_gnb_ue_by_pr_ue_id (value_or gnb_1 (delete_gnb_ue gnb_1 0)) 1 ≡ (
        if 4 == 1
        then (elim (get_gnb_ue_by_pr_ue_id gnb_1 1) [
          | none ↦ none
          | some q ↦ if q == 0 then none else some q
        ])
        else get_gnb_ue_by_pr_ue_id gnb_1 1))
    × (get_gnb_ue_by_teid (value_or gnb_1 (delete_gnb_ue gnb_1 0)) 1
        ≡ (if has_teid 1 gnb_ue.context.pdu_session then none else get_gnb_ue_by_teid gnb_1 1))
unfolding delete_gnb_ue lookup
lookups-delete_gnb_ue_example =
    lookups-delete_gnb_ue gnb_1 (value_or gnb_1 (delete_gnb_ue gnb_1 0)) 0 gnb_ue 1 refl refl

no_session :
    (n i : ℕ) (s : GnbPduSession)
    → get_elem? {A = Option GnbPduSession} (replicate n none) i ≢ some (some s)
no_session zero i s = λ e. ground arith
no_session (suc n) zero s = λ e. ground arith
no_session (suc n) (suc i) s = no_session n i s

pub gnb_ue-IsTable : IsTable gnb_ue
gnb_ue-IsTable = record { size = refl; placed = λ i s e. absurd (no_session 16 i s e) }

abbrev pub with_session : GnbUe
with_session = with_table gnb_ue (set gnb_ue.context.pdu_session 0 (some (session_with 1)))

created : create_pdu_session gnb_ue (session_with 1) ≡ ok (with_session, answer (session_with 1))
unfolding create_pdu_session is_wanted_nssai text_eq
created = refl

amf_1-IsCounted : IsCounted (amf_with 1 10)
amf_1-IsCounted = record { plmn_count = refl; slice_count = refl }

setup-active_example :
    IsCounted (record (amf_with 1 10) { name = codes "core" })
    × (handler_ng_setup_response gnb_1 1 (Ie.amf_name (some (codes "core")) ∷ [])
        ≡ ok (put_amf gnb_1 1 (record (amf_with 1 10) { name = codes "core"; state = active })))
unfolding scan_setup lookup
setup-active_example =
    setup-active gnb_1 1 (Ie.amf_name (some (codes "core")) ∷ []) (amf_with 1 10)
      (record (amf_with 1 10) { name = codes "core" }) refl amf_1-IsCounted refl

abbrev moved : GnbUe
moved = record gnb_ue { amf_id = 2; sctp_connection = some 72 }

rebind-none_left_example : moved.amf_id ≢ 1
unfolding rebind lookup insert
rebind-none_left_example =
    rebind-none_left gnb_1.ue_heap gnb_1.ue_pool 1 1 0 (amf_with 2 20) moved (λ e. omega arith) refl
      refl

abbrev no_update : Update
no_update = record { amf_name = []; amf_capacity = 0; region_id = 0; set_id = 0; pointer = 0 }

abbrev removal : Association
removal = record { bit_length = 32; address = 2 ∷ []; usage = none; weight = none }

-- The sender is the AMF 1, and the AMF 2 is to be removed.
removes-sender_example :
    (h : Gnb) × (n : ℕ) × (scan_update gnb_env gnb_1 1 no_update
        (to_remove_list (removal ∷ []) ∷ relative_amf_capacity (some 5) ∷ [])
      ≡ scan_update gnb_env h 1 no_update (relative_amf_capacity (some 5) ∷ []))
    × IsClosing gnb_env 1 (amf_with 1 10) (removal ∷ []) gnb_1 h n
unfolding lookup
removes-sender_example =
    removes-sender gnb_env 1 (amf_with 1 10) gnb_1 no_update (removal ∷ [])
      (relative_amf_capacity (some 5) ∷ []) refl

abbrev new_gnb : Gnb
new_gnb = record gnb_1 { ue_heap = []; next_ptr = 0; ue_pool = []; pr_ue_pool = [] }

xn-path_switch_example :
    (h : Gnb) × (u : GnbUe) × (gnb_listen gnb_env new_gnb (handed_over gnb_1 gnb_ue)
      ≡ ok (process h 0))
    × (lookup 0 h.ue_heap ≡ some u)
    × (u.ran_ue_ngap_id ≡ 2)
    × (u.amf_ue_ngap_id ≡ 0)
    × (u.context ≡ gnb_ue.context)
    × (u.state ≡ ready)
    × (h.sent ≡ to_amf (some 72) (path_switch_request 2 0 gnb_ue.context.pdu_session) ∷ [])
unfolding get_gnb_ue_by_pr_ue_id lookup store_ue select_amf_by_active select_loop
xn-path_switch_example =
    xn-path_switch gnb_env gnb_1 new_gnb gnb_ue (amf_with 2 20) refl refl refl refl

abbrev paged : PagedUe
paged = record { five_g_s_tmsi = some 3; tmsi = 1 ∷ 2 ∷ 3 ∷ 4 ∷ []; timestamp = 5 }

paged_forever_example :
    (more : List PagedUe) × (get_paged_ues (expire_paged_ue (add_paged_ue gnb_1 paged) paged)
      ≡ get_paged_ues gnb_1 ++ more)
unfolding add_paged_ue
paged_forever_example =
    paged_forever
      (next (next here (page gnb_1 paged refl)) (expire (add_paged_ue gnb_1 paged) paged refl))
