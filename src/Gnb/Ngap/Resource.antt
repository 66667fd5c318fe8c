-- ===== src/Gnb/Ngap/Resource.antt =====
-- `HandlerPduSessionResourceSetupRequest` of
-- PacketRusher/internal/control_test_engine/gnb/ngap/handler.go.
pub mod Created
use g_cn_testbed_k8s.Base.{
  ℕ, ◌+◌, ◌/◌, ◌%◌, List, [], ◌∷◌, ◌++◌, Option, none, some, Text, Result, ok, fatal, panic, ◌>>=◌,
  set, ltb, if◌then◌else◌,
}
use g_cn_testbed_k8s.Gnb.State.{Gnb, GnbPduSession, Sessions, no_sessions, empty_message}
use g_cn_testbed_k8s.Gnb.Ue.{Answer, answer, refused, get_selected_nssai}
use g_cn_testbed_k8s.Gnb.Ngap.{
  Ie, amf_ue_ngap_id, ran_ue_ngap_id, setup_list, SetupItem, TransferIe, ul_ng_u_up_tnl, qos_flow,
  pdu_session_type, Env, or_fatal, deref, get_ue_from_context, send_to_ue, send_message_to_ue,
  send_pdu_session_resource_setup_response,
}
use g_cn_testbed_k8s.Gnb.Ngap.Setup.{hex_or_not_informed, be_uint32, create_with_teid}

-- `%d` of a byte.
decimal : ℕ → Text
decimal n =
    if ltb n 10
    then (b'0' + n) ∷ []
    else if ltb n 100
    then (b'0' + n / 10) ∷ (b'0' + n % 10) ∷ []
    else (b'0' + n / 100) ∷ (b'0' + n / 10 % 10) ∷ (b'0' + n % 10) ∷ []

-- `fmt.Sprintf("%d.%d.%d.%d", a[0], a[1], a[2], a[3])`
unfoldable pub dotted : List ℕ → Result Text
unfolding decimal
dotted (a ∷ b ∷ c ∷ d ∷ l) =
    ok (decimal a ++ b'.' ∷ (decimal b ++ b'.' ∷ (decimal c ++ b'.' ∷ decimal d)))
dotted _ = panic

-- What a Resource Setup Request Transfer says; later elements replace earlier ones.
pub record Transfer : Type 0 where
  pub ul_teid : ℕ
  pub upf_address : List ℕ
  pub qos_id : ℕ
  pub five_qi : ℕ
  pub pri_arp : ℕ
  pub pdu_s_type : ℕ

abbrev pub empty_transfer : Transfer
empty_transfer = record {
  ul_teid = 0;
  upf_address = [];
  qos_id = 0;
  five_qi = 0;
  pri_arp = 0;
  pdu_s_type = 0;
}

pub scan_transfer : List TransferIe → Transfer → Result Transfer
unfolding be_uint32
scan_transfer [] t = ok t
scan_transfer (ul_ng_u_up_tnl address teid ∷ l) t =
    be_uint32 teid >>= λ v. scan_transfer l (record t { ul_teid = v; upf_address = address })
scan_transfer (qos_flow q f a ∷ l) t =
    scan_transfer l (record t { qos_id = q; five_qi = f; pri_arp = a })
scan_transfer (pdu_session_type v ∷ l) t = scan_transfer l (record t { pdu_s_type = v })
scan_transfer (_ ∷ l) t = scan_transfer l t

-- A transfer that cannot be decoded is logged, and counts as empty.
pub decoded_transfer : Option (List TransferIe) → Result Transfer
unfolding scan_transfer
decoded_transfer none = ok empty_transfer
decoded_transfer (some ies) = scan_transfer ies empty_transfer

-- The session that stands alone in the message to the UE.
abbrev pub first_session : GnbPduSession → Sessions
first_session s = set no_sessions 0 (some s)

abbrev pub or_nil_panic {ℓ} : {A : Type ℓ} → Answer A → Result A
or_nil_panic (refused e) = panic
or_nil_panic (answer a) = ok a

-- The loop over the elements: the ids and the list of sessions.
pub scan_resource :
    List Ie → ℕ × ℕ × Option (List SetupItem) → Result (ℕ × ℕ × Option (List SetupItem))
scan_resource [] s = ok s
scan_resource (amf_ue_ngap_id none ∷ l) s = fatal
scan_resource (amf_ue_ngap_id (some v) ∷ l) (r, a, m) = scan_resource l (r, v, m)
scan_resource (ran_ue_ngap_id none ∷ l) s = fatal
scan_resource (ran_ue_ngap_id (some v) ∷ l) (r, a, m) = scan_resource l (v, a, m)
scan_resource (setup_list none ∷ l) s = fatal
scan_resource (setup_list (some v) ∷ l) (r, a, m) = scan_resource l (r, a, some v)
scan_resource (_ ∷ l) s = scan_resource l s

module _ (env : Env) where
  -- The body of the loop over the sessions of a PDU Session Resource Setup Request: the session
  -- that it creates, and the gNodeB after it. A session that is refused is a nil pointer, which
  -- the log line uses.
  unfoldable pub setup_resource_item : Gnb → ℕ → SetupItem → Result (GnbPduSession × Gnb)
  unfolding create_with_teid decoded_transfer dotted
  setup_resource_item g p item = do
    message_nas ← or_fatal item.nas_pdu
    transfer ← or_fatal item.transfer
    t ← decoded_transfer (env.decode_transfer transfer)
    upf_ip ← dotted t.upf_address
    (g', created) ← create_with_teid g p (record {
      pdu_session_id = item.pdu_session_id;
      upf_ip = upf_ip;
      sst = hex_or_not_informed item.snssai.sst;
      sd = hex_or_not_informed item.snssai.sd;
      uplink_teid = t.ul_teid;
      downlink_teid = 0;
      pdu_type = t.pdu_s_type;
      qos_id = t.qos_id;
      five_qi = t.five_qi;
      pri_arp = t.pri_arp;
    })
    session ← or_nil_panic created
    ue ← deref g' p
    _ ← get_selected_nssai ue session.pdu_session_id
    g1 ← send_to_ue g' p (some message_nas)
    g2 ←
        send_message_to_ue g1 p
          (record empty_message { gnb_ip = g1.n3_ip; gnb_pdu_sessions = first_session session })
    ok (session, g2)

  unfoldable pub setup_resource_items :
      Gnb
      → ℕ
      → List SetupItem
      → List (Option GnbPduSession)
      → Result (List (Option GnbPduSession) × Gnb)
  setup_resource_items g p [] done = ok (done, g)
  setup_resource_items g p (item ∷ items) done =
      setup_resource_item g p item >>= λ r. setup_resource_items r.1 p items (done ++ some r.0 ∷ [])

  unfoldable pub handler_pdu_session_resource_setup_request : Gnb → List Ie → Result Gnb
  unfolding scan_resource
  handler_pdu_session_resource_setup_request g ies = do
    (ran_ue_id, amf_ue_id, sessions) ← scan_resource ies (0, 0, none)
    (found, g') ← get_ue_from_context g ran_ue_id amf_ue_id
    elim found [
      | none ↦ ok g'
      | some p ↦ elim sessions [
        | none ↦ panic
        | some items ↦ setup_resource_items g' p items [] >>= λ r.
            send_pdu_session_resource_setup_response env r.1 p r.0
      ]
    ]
