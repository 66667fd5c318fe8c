-- ===== src/Examples/Resources.antt =====
-- An example of a PDU Session Resource Setup Request.
use g_cn_testbed_k8s.Base.{
  ℕ, ◌<◌, ◌≡◌, refl, true, List, [], ◌∷◌, none, some, ok, codes, Result, lookup, set, text_eq,
}
use g_cn_testbed_k8s.Gnb.State.{Gnb, to_channel, empty_message}
use g_cn_testbed_k8s.Gnb.Ue.{is_wanted_nssai, create_pdu_session, get_selected_nssai}
use g_cn_testbed_k8s.Gnb.Pools.{get_ue_teid, get_gnb_ue_by_teid}
use g_cn_testbed_k8s.Gnb.Ngap.{Env, SetupItem, ul_ng_u_up_tnl, qos_flow, deref, put_ue, send_to_ue}
use g_cn_testbed_k8s.Gnb.Ngap.Resource.{setup_resource_item, first_session}
use g_cn_testbed_k8s.Gnb.Ngap.Resource.Created.{session-created}
use g_cn_testbed_k8s.Examples.Data.{gnb_ue, gnb_1, session_with, gnb_env}
use g_cn_testbed_k8s.Examples.Gnbs.{gnb_ue-IsTable, with_session}

abbrev session_env : Env
session_env = record gnb_env {
  decode_transfer =
      λ b. some (ul_ng_u_up_tnl (10 ∷ 0 ∷ 0 ∷ 2 ∷ []) (0 ∷ 0 ∷ 0 ∷ 1 ∷ []) ∷ qos_flow 1 0 0 ∷ []);
}

abbrev session_item : SetupItem
session_item = record {
  pdu_session_id = 1;
  snssai = record { sst = some (1 ∷ []); sd = some (17 ∷ 34 ∷ 51 ∷ []) };
  nas_pdu = some (126 ∷ []);
  transfer = some [];
}

abbrev set_up : Gnb
set_up = record (put_ue (get_ue_teid gnb_1 0).1 0 with_session) {
  sent =
      to_channel 20 (record empty_message {
        gnb_ip = codes "10.0.0.1";
        gnb_pdu_sessions = first_session (session_with 1);
      })
      ∷ to_channel 20 (record empty_message { is_nas = true; nas = some (126 ∷ []) })
      ∷ [];
}

session-created_example :
    (is_wanted_nssai gnb_ue (codes "01") (codes "112233") ≡ true)
    × (◌≡◌ {A = ℕ} 1 1)
    × (0 < 1)
    × (1 < 16)
    × (get_gnb_ue_by_teid set_up 5 ≡ some 0)
unfolding setup_resource_item lookup deref get_ue_teid create_pdu_session is_wanted_nssai text_eq
    g_cn_testbed_k8s.Plmn.hex_encode g_cn_testbed_k8s.Base.insert get_selected_nssai send_to_ue
session-created_example =
    session-created session_env gnb_1 set_up 0 gnb_ue session_item (session_with 1) refl
      gnb_ue-IsTable refl
