-- ===== src/Gnb/Ngap/Setup.antt =====
-- `HandlerInitialContextSetupRequest` of
-- PacketRusher/internal/control_test_engine/gnb/ngap/handler.go.
use g_cn_testbed_k8s.Base.{
  ℕ, ◌+◌, ◌*◌, false, List, [], ◌∷◌, Option, none, some, Text, codes, Result, ok, fatal, panic,
  ◌>>=◌, map,
}
use g_cn_testbed_k8s.Plmn.{hex_encode}
use g_cn_testbed_k8s.Gnb.State.{Gnb, GnbPduSession, empty_message}
use g_cn_testbed_k8s.Gnb.Ue.{Answer, create_pdu_session, create_ue_context}
use g_cn_testbed_k8s.Gnb.Pools.{get_ue_teid}
use g_cn_testbed_k8s.Gnb.Ngap.{
  Ie, amf_ue_ngap_id, ran_ue_ngap_id, nas_pdu, security_key, guami, allowed_nssai,
  mobility_restriction_list, masked_imeisv, ue_security_capabilities, setup_list, SetupItem,
  TransferIe, ul_ng_u_up_tnl, Env, deref, put_ue, get_ue_from_context, send_to_ue,
  send_message_to_ue, send_initial_context_setup_response,
}

abbrev pub not_informed : Text
not_informed = codes "not informed"

-- `fmt.Sprintf("%x", v)`, or "not informed" for a nil value.
abbrev pub hex_or_not_informed : Option (List ℕ) → Text
hex_or_not_informed none = not_informed
hex_or_not_informed (some v) = hex_encode v

-- `fmt.Sprintf("%x", v)` of a byte slice, which may be nil.
abbrev pub hex_of : Option (List ℕ) → Text
hex_of none = []
hex_of (some v) = hex_encode v

-- `binary.BigEndian.Uint32`
unfoldable pub be_uint32 : List ℕ → Result ℕ
be_uint32 (a ∷ b ∷ c ∷ d ∷ l) = ok (((a * 256 + b) * 256 + c) * 256 + d)
be_uint32 _ = panic

pub record InitialContext : Type 0 where
  pub ran_ue_id : ℕ
  pub amf_ue_id : ℕ
  pub message_nas : Option (List ℕ)
  pub sst : List Text
  pub sd : List Text
  pub mobility_restrict : Text
  pub imeisv : Text
  pub capabilities : Option ℕ
  pub sessions : Option (List SetupItem)

pub scan_initial : List Ie → InitialContext → Result InitialContext
scan_initial [] s = ok s
scan_initial (amf_ue_ngap_id none ∷ l) s = fatal
scan_initial (amf_ue_ngap_id (some v) ∷ l) s = scan_initial l (record s { amf_ue_id = v })
scan_initial (ran_ue_ngap_id none ∷ l) s = fatal
scan_initial (ran_ue_ngap_id (some v) ∷ l) s = scan_initial l (record s { ran_ue_id = v })
scan_initial (nas_pdu none ∷ l) s = panic
scan_initial (nas_pdu (some v) ∷ l) s = scan_initial l (record s { message_nas = some v })
scan_initial (security_key false ∷ l) s = fatal
scan_initial (guami false ∷ l) s = fatal
scan_initial (allowed_nssai none ∷ l) s = fatal
scan_initial (allowed_nssai (some v) ∷ l) s = scan_initial l (record s {
  sst = map (λ i. hex_or_not_informed i.sst) v;
  sd = map (λ i. hex_or_not_informed i.sd) v;
})
scan_initial (mobility_restriction_list v ∷ l) s =
    scan_initial l (record s { mobility_restrict = hex_or_not_informed v })
scan_initial (masked_imeisv v ∷ l) s = scan_initial l (record s { imeisv = hex_or_not_informed v })
scan_initial (ue_security_capabilities none ∷ l) s = fatal
scan_initial (ue_security_capabilities (some v) ∷ l) s =
    scan_initial l (record s { capabilities = some v })
scan_initial (setup_list none ∷ l) s = fatal
scan_initial (setup_list (some v) ∷ l) s = scan_initial l (record s { sessions = some v })
scan_initial (_ ∷ l) s = scan_initial l s

-- The address and the TEID of the last uplink tunnel in a transfer.
unfoldable pub last_tunnel : List TransferIe → List ℕ × List ℕ → List ℕ × List ℕ
last_tunnel [] s = s
last_tunnel (ul_ng_u_up_tnl address teid ∷ l) s = last_tunnel l (address, teid)
last_tunnel (_ ∷ l) s = last_tunnel l s

-- A downlink TEID is taken for the session, and the session is created; the TEID stays taken if
-- that fails.
unfoldable pub create_with_teid : Gnb → ℕ → GnbPduSession → Result (Gnb × Answer GnbPduSession)
create_with_teid g p s =
    let (teid, g') = get_ue_teid g p in
    deref g' p >>= λ ue.
    create_pdu_session ue (record s { downlink_teid = teid }) >>= λ r. ok (put_ue g' p r.0, r.1)

-- A byte slice that may be nil, as bytes.
abbrev pub bytes_of : Option (List ℕ) → List ℕ
bytes_of none = []
bytes_of (some v) = v

module _ (env : Env) where
  -- The body of the loop over the sessions of an Initial Context Setup Request.
  unfoldable pub setup_context_item : Gnb → ℕ → SetupItem → Result Gnb
  unfolding last_tunnel create_with_teid be_uint32
  setup_context_item g p item = elim (env.decode_transfer (bytes_of item.transfer)) [
    | none ↦ ok g
    | some ies ↦
        let tunnel = last_tunnel ies ([], []) in
        be_uint32 tunnel.1 >>= λ uplink.
        create_with_teid g p (record {
          pdu_session_id = item.pdu_session_id;
          upf_ip = env.ip_address_to_string tunnel.0;
          sst = hex_of item.snssai.sst;
          sd = hex_or_not_informed item.snssai.sd;
          uplink_teid = uplink;
          downlink_teid = 0;
          pdu_type = 0;
          qos_id = 1;
          five_qi = 0;
          pri_arp = 0;
        })
        >>= λ r. elim item.nas_pdu [ none ↦ ok r.0 | some v ↦ send_to_ue r.0 p (some v) ]
  ]

  unfoldable pub setup_context_items : Gnb → ℕ → List SetupItem → Result Gnb
  setup_context_items g p [] = ok g
  setup_context_items g p (item ∷ items) =
      setup_context_item g p item >>= λ g'. setup_context_items g' p items

  -- The sessions of the request, if there is a list of them, and the message to the UE.
  unfoldable pub setup_context_sessions : Gnb → ℕ → Option (List SetupItem) → Result Gnb
  unfolding setup_context_items
  setup_context_sessions g p none = ok g
  setup_context_sessions g p (some items) = do
    g' ← setup_context_items g p items
    ue ← deref g' p
    send_message_to_ue g' p
        (record empty_message { gnb_pdu_sessions = ue.context.pdu_session; gnb_ip = g'.n3_ip })

  -- `HandlerInitialContextSetupRequest` from where the UE has been found.
  unfoldable pub setup_context : Gnb → ℕ → InitialContext → Result Gnb
  setup_context g p s = do
    ue ← deref g p
    ue' ← create_ue_context ue s.mobility_restrict s.imeisv s.sst s.sd s.capabilities
    g1 ← elim s.message_nas [
      | none ↦ ok (put_ue g p ue')
      | some v ↦ send_to_ue (put_ue g p ue') p (some v)
    ]
    g2 ← setup_context_sessions g1 p s.sessions
    send_initial_context_setup_response env g2 p

  unfoldable pub handler_initial_context_setup_request : Gnb → List Ie → Result Gnb
  unfolding scan_initial setup_context
  handler_initial_context_setup_request g ies = do
    s ← scan_initial ies (record {
      ran_ue_id = 0;
      amf_ue_id = 0;
      message_nas = none;
      sst = [];
      sd = [];
      mobility_restrict = not_informed;
      imeisv = [];
      capabilities = none;
      sessions = none;
    })
    (found, g') ← get_ue_from_context g s.ran_ue_id s.amf_ue_id
    elim found [ none ↦ ok g' | some p ↦ setup_context g' p s ]
