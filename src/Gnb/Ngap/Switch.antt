-- ===== src/Gnb/Ngap/Switch.antt =====
-- `HandlerPathSwitchRequestAcknowledge` of PacketRusher/internal/control_test_engine/gnb/ngap/handler.go
-- and `SendPathSwitchRequest` of gnb/ngap/trigger/trigger.go.
use g_cn_testbed_k8s.Base.{
  ℕ, List, [], ◌∷◌, Option, none, some, Text, Result, ok, fatal, panic, ◌>>=◌, set, ◌-◌,
}
use g_cn_testbed_k8s.Gnb.State.{Gnb, GnbPduSession, empty_message, no_sessions, path_switch_request}
use g_cn_testbed_k8s.Gnb.Ue.{answer, refused, get_pdu_session, with_table}
use g_cn_testbed_k8s.Gnb.Ngap.{
  Ie, amf_ue_ngap_id, ran_ue_ngap_id, switched_list, SwitchedItem, Env, deref, put_ue,
  get_ue_from_context, send_message_to_ue, send_encoded,
}
use g_cn_testbed_k8s.Gnb.Ngap.Setup.{be_uint32}

pub record Switch : Type 0 where
  pub ran_ue_id : ℕ
  pub amf_ue_id : ℕ
  pub switched : List SwitchedItem

-- The loop over the elements; no list and an empty list are handled alike.
unfoldable pub scan_switch : List Ie → Switch → Result Switch
scan_switch [] s = ok s
scan_switch (amf_ue_ngap_id none ∷ l) s = fatal
scan_switch (amf_ue_ngap_id (some v) ∷ l) s = scan_switch l (record s { amf_ue_id = v })
scan_switch (ran_ue_ngap_id none ∷ l) s = fatal
scan_switch (ran_ue_ngap_id (some v) ∷ l) s = scan_switch l (record s { ran_ue_id = v })
scan_switch (switched_list none ∷ l) s = fatal
scan_switch (switched_list (some v) ∷ l) s = scan_switch l (record s { switched = v })
scan_switch (_ ∷ l) s = scan_switch l s

-- What the acknowledgement says of the uplink tunnel is written to the session, if it says anything.
unfoldable pub switched_session :
    (List ℕ → Text)
    → Option (List ℕ × List ℕ)
    → Option GnbPduSession
    → Result (Option GnbPduSession)
unfolding be_uint32
switched_session ip none session = ok session
switched_session ip (some (address, teid)) session = be_uint32 teid >>= λ v. elim session [
  | none ↦ panic
  | some s ↦ ok (some (record s { uplink_teid = v; upf_ip = ip address }))
]

module _ (env : Env) where
  -- The body of the loop over the switched sessions.
  unfoldable pub path_switch_item : Gnb → ℕ → SwitchedItem → Result Gnb
  unfolding switched_session
  path_switch_item g p item = deref g p >>= λ ue.
      get_pdu_session ue item.pdu_session_id >>= λ found. elim found [
        | refused e ↦ ok g
        | answer session ↦ elim (env.decode_switch item.transfer) [
          | none ↦ ok g
          | some tunnel ↦ switched_session env.ip_address_to_string tunnel session >>= λ s.
              send_message_to_ue
                (put_ue g p
                  (with_table ue (set ue.context.pdu_session (item.pdu_session_id - 1) s)))
                p
                (record empty_message { gnb_pdu_sessions = set no_sessions 0 s; gnb_ip = g.n3_ip })
        ]
      ]

  unfoldable pub path_switch_items : Gnb → ℕ → List SwitchedItem → Result Gnb
  path_switch_items g p [] = ok g
  path_switch_items g p (item ∷ items) =
      path_switch_item g p item >>= λ g'. path_switch_items g' p items

  unfoldable pub handler_path_switch_request_acknowledge : Gnb → List Ie → Result Gnb
  unfolding scan_switch
  handler_path_switch_request_acknowledge g ies = do
    s ← scan_switch ies (record { ran_ue_id = 0; amf_ue_id = 0; switched = [] })
    (found, g') ← get_ue_from_context g s.ran_ue_id s.amf_ue_id
    elim found [ none ↦ ok g' | some p ↦ path_switch_items g' p s.switched ]

  -- `SendPathSwitchRequest` of the triggers.
  unfoldable pub send_path_switch_request : Gnb → ℕ → Result Gnb
  unfolding deref send_encoded
  send_path_switch_request g p = deref g p >>= λ ue.
      send_encoded env g ue.sctp_connection
        (path_switch_request ue.ran_ue_ngap_id ue.amf_ue_ngap_id ue.context.pdu_session)
