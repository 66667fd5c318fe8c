-- ===== src/Ue/State.antt =====
-- The data of the UE: the structs and the setters of ue/context/context.go, ue/scenario and
-- ue/nas/message/sender/send.go in PacketRusher/internal/control_test_engine. A PDU session is
-- reached by a pointer, a key of `session_heap`; channels are numbers. What goes out on a channel is
-- put in front of `sent`.
use g_cn_testbed_k8s.Base.{
  ℕ, Bool, true, List, ◌∷◌, Option, none, some, Text, Map, Result, or_panic, lookup, insert,
}
use g_cn_testbed_k8s.Gnb.State.{GnbPduSession, UeMessage, empty_message}

-- The 5GMM main states of the UE.
pub data StateMm : Type 0 where
  mm5g_null mm5g_deregistered mm5g_registered_initiated mm5g_registered : StateMm
  mm5g_service_req_init mm5g_deregistered_init mm5g_idle : StateMm

-- The 5GSM main states of a PDU session.
pub data StateSm : Type 0 where
  pdu_session_inactive pdu_session_active_pending pdu_session_active : StateSm

pub data TunnelMode : Type 0 where
  tunnel_disabled tunnel_tun tunnel_vrf : TunnelMode

-- `wait_closed` says that the channel `Wait` has been closed.
pub record UePduSession : Type 0 where
  pub id : ℕ  -- uint8
  pub gnb_pdu_session : Option GnbPduSession
  pub ue_ip : Text
  pub stop_signal : Option ℕ
  pub wait_closed : Bool
  pub t3580_retries : ℕ
  pub state_sm : StateSm

-- What `AuthenticationSubs` holds, in hexadecimal.
pub record Subscription : Type 0 where
  pub opc : Text
  pub permanent_key : Text
  pub sequence_number : Text
  pub amf : Text

-- The counts are those of the NAS library; a GUTI is a pointer, with the TMSI behind it.
pub record Security : Type 0 where
  pub supi : Text
  pub ul_count : ℕ
  pub dl_count : ℕ
  pub integrity_alg : ℕ
  pub ciphering_alg : ℕ
  pub ksi : ℕ
  pub tsc_mapped : Bool
  pub snn : Text
  pub knas_enc : List ℕ
  pub knas_int : List ℕ
  pub kamf : List ℕ
  pub subscription : Subscription
  pub guti : Option (ℕ × List ℕ)

-- What the UE hands to the NAS encoder, by message.
pub data Uplink : Type 0 where
  registration_request :
      (capability : Bool) (ksi : ℕ) (guti : Option (ℕ × List ℕ)) (pdu_flag : ℕ) → Uplink
  authentication_mac_failure : Uplink
  authentication_sync_failure authentication_response : (param : List ℕ) → Uplink
  security_mode_complete : (container : Option (List ℕ)) → Uplink
  registration_complete configuration_update_complete identity_response : Uplink
  establishment_request release_request release_complete : (id : ℕ) → Uplink
  deregistration_request : (ksi : ℕ) (guti : Option (ℕ × List ℕ)) → Uplink
  service_request : (guti : Option (ℕ × List ℕ)) (pdu_flag : ℕ) → Uplink

pub data Sent : Type 0 where
  to_gnb : (channel : ℕ) → UeMessage → Sent
  state_change : StateMm → Sent
  stopped : (signal : ℕ) → Sent
  closed : (channel : ℕ) → Sent
  scenario_closed : Sent

-- `pdu_session` is `[16]*UEPDUSession`; `drx` says whether the ticker runs, if there is one;
-- `t3580` has the sessions whose retry timer runs.
pub record Ue : Type 0 where
  pub pr_ue_id : ℕ
  pub security : Security
  pub state_mm : StateMm
  pub gnb_inbound_channel : ℕ
  pub gnb_rx : Option ℕ
  pub gnb_tx : Option ℕ
  pub drx : Option Bool
  pub pdu_session : List (Option ℕ)
  pub session_heap : Map UePduSession
  pub next_ptr : ℕ
  pub t3580 : List ℕ
  pub amf_mcc : Text
  pub amf_mnc : Text
  pub sst : ℕ  -- int32
  pub sd : Text
  pub tunnel_mode : TunnelMode
  pub sent : List Sent

-- `SetStateMM_...`, which also tell the scenario; `SetStateMM_NULL` does not.
abbrev pub set_state_mm : Ue → StateMm → Ue
set_state_mm ue s = record ue { state_mm = s; sent = state_change s ∷ ue.sent }

abbrev pub set_state_mm_null : Ue → Ue
set_state_mm_null ue = record ue { state_mm = mm5g_null }

abbrev pub put_session : Ue → ℕ → UePduSession → Ue
put_session ue p s = record ue { session_heap = insert p s ue.session_heap }

abbrev pub deref_session : Ue → ℕ → Result UePduSession
deref_session ue p = or_panic (lookup p ue.session_heap)

-- `SendToGnbMsg`: on a nil channel only a warning is logged.
unfoldable pub send_to_gnb_msg : Ue → UeMessage → Ue
send_to_gnb_msg ue m = elim ue.gnb_rx [
  | none ↦ ue
  | some c ↦ record ue { sent = to_gnb c m ∷ ue.sent }
]

-- `SendToGnb`
unfoldable pub send_to_gnb : Ue → Option (List ℕ) → Ue
unfolding send_to_gnb_msg
send_to_gnb ue nas = send_to_gnb_msg ue (record empty_message { is_nas = true; nas = nas })
