-- ===== src/Gnb/Ngap/HandoverRequest.antt =====
-- `HandlerHandoverRequest` of PacketRusher/internal/control_test_engine/gnb/ngap/handler.go
-- and `SendHandoverRequestAcknowledge` and `SendHandoverNotify` of gnb/ngap/trigger/trigger.go.
use g_cn_testbed_k8s.Base.{
  ℕ, List, [], ◌∷◌, Option, none, some, Text, Result, ok, fatal, panic, ◌>>=◌, map,
}
use g_cn_testbed_k8s.Gnb.State.{Gnb, handover_request_acknowledge, handover_notify}
use g_cn_testbed_k8s.Gnb.Ue.{create_ue_context}
use g_cn_testbed_k8s.Gnb.Pools.{new_gnb_ue}
use g_cn_testbed_k8s.Gnb.Ngap.{
  Ie, amf_ue_ngap_id, allowed_nssai, masked_imeisv, ue_security_capabilities,
  source_to_target_container, handover_list, SetupItem, Env, or_fatal, deref, put_ue, send_encoded,
}
use g_cn_testbed_k8s.Gnb.Ngap.Setup.{
  not_informed, hex_or_not_informed, hex_of, be_uint32, create_with_teid, last_tunnel, bytes_of,
}

pub record HandoverRequest : Type 0 where
  pub amf_ue_id : ℕ
  pub sst : List Text
  pub sd : List Text
  pub imeisv : Text
  pub container : Option (List ℕ)
  pub sessions : Option (List SetupItem)
  pub capabilities : Option ℕ

unfoldable pub scan_handover : List Ie → HandoverRequest → Result HandoverRequest
scan_handover [] s = ok s
scan_handover (amf_ue_ngap_id none ∷ l) s = fatal
scan_handover (amf_ue_ngap_id (some v) ∷ l) s = scan_handover l (record s { amf_ue_id = v })
scan_handover (allowed_nssai none ∷ l) s = fatal
scan_handover (allowed_nssai (some v) ∷ l) s = scan_handover l (record s {
  sst = map (λ i. hex_or_not_informed i.sst) v;
  sd = map (λ i. hex_or_not_informed i.sd) v;
})
scan_handover (masked_imeisv v ∷ l) s =
    scan_handover l (record s { imeisv = hex_or_not_informed v })
scan_handover (source_to_target_container none ∷ l) s = fatal
scan_handover (source_to_target_container (some v) ∷ l) s =
    scan_handover l (record s { container = some v })
scan_handover (handover_list none ∷ l) s = fatal
scan_handover (handover_list (some v) ∷ l) s = scan_handover l (record s { sessions = some v })
scan_handover (ue_security_capabilities none ∷ l) s = fatal
scan_handover (ue_security_capabilities (some v) ∷ l) s =
    scan_handover l (record s { capabilities = some v })
scan_handover (_ ∷ l) s = scan_handover l s

module _ (env : Env) where
  -- The body of the loop over the sessions of a Handover Request; a session that is refused is
  -- only logged.
  unfoldable pub handover_item : Gnb → ℕ → SetupItem → Result Gnb
  unfolding be_uint32 create_with_teid last_tunnel
  handover_item g p item = elim (env.decode_transfer (bytes_of item.transfer)) [
    | none ↦ ok g
    | some ies ↦
        let tunnel = last_tunnel ies ([], []) in
        be_uint32 tunnel.1 >>= λ uplink.
        create_with_teid g p (record {
          pdu_session_id = item.pdu_session_id;
          upf_ip = env.ip_address_to_string tunnel.0;
          sst = hex_of item.snssai.sst;
          sd = hex_or_not_informed item.snssai.sd;
          uplink_teid = uplink;
          downlink_teid = 0;
          pdu_type = 0;
          qos_id = 1;
          five_qi = 0;
          pri_arp = 0;
        })
        >>= λ r. ok r.0
  ]

  unfoldable pub handover_items : Gnb → ℕ → List SetupItem → Result Gnb
  handover_items g p [] = ok g
  handover_items g p (item ∷ items) = handover_item g p item >>= λ g'. handover_items g' p items

  -- `SendHandoverRequestAcknowledge` and `SendHandoverNotify` of the triggers.
  unfoldable pub send_handover_request_acknowledge : Gnb → ℕ → Result Gnb
  unfolding deref send_encoded
  send_handover_request_acknowledge g p = deref g p >>= λ ue.
      send_encoded env g ue.sctp_connection
        (handover_request_acknowledge ue.ran_ue_ngap_id ue.amf_ue_ngap_id ue.context.pdu_session)

  unfoldable pub send_handover_notify : Gnb → ℕ → Result Gnb
  unfolding deref send_encoded
  send_handover_notify g p = deref g p >>= λ ue.
      send_encoded env g ue.sctp_connection
        (handover_notify ue.ran_ue_ngap_id ue.amf_ue_ngap_id ue.context.pdu_session)

  -- `HandlerHandoverRequest` from where the id of the UE has been found.
  unfoldable pub accept_handover : Gnb → ℕ → HandoverRequest → Result Gnb
  unfolding handover_items send_handover_request_acknowledge
  accept_handover g pr_ue_id s =
      let (g1, made) = new_gnb_ue g none none pr_ue_id none in
      (do
        p ← or_fatal made
        ue ← deref g1 p
        ue' ←
            create_ue_context (record ue { amf_ue_ngap_id = s.amf_ue_id }) not_informed s.imeisv
              s.sst s.sd s.capabilities
        g2 ← elim s.sessions [
          | none ↦ panic
          | some items ↦ handover_items (put_ue g1 p ue') p items
        ]
        send_handover_request_acknowledge g2 p)

  unfoldable pub handler_handover_request : Gnb → List Ie → Result Gnb
  unfolding scan_handover accept_handover
  handler_handover_request g ies = do
    s ← scan_handover ies (record {
      amf_ue_id = 0;
      sst = [];
      sd = [];
      imeisv = [];
      container = none;
      sessions = none;
      capabilities = none;
    })
    elim s.container [
      | none ↦ ok g
      | some bytes ↦ elim (env.decode_container bytes) [
        | none ↦ ok g
        | some none ↦ ok g
        | some (some pr_ue_id) ↦ accept_handover g pr_ue_id s
      ]
    ]
