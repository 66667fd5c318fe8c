-- ===== src/Gnb/State.antt =====
-- The data of the gNodeB: the structs of gnb/context/context.go, gnb/context/ue.go,
-- gnb/context/amf.go and gnb/context/msg.go in PacketRusher/internal/control_test_engine.
-- Pointers to UEs and AMFs are keys of the heaps `ue_heap` and `amf_heap`; channels, SCTP
-- associations and decoded identities of libraries are numbers. What goes out on a channel or an
-- association is put in front of `sent`.
use g_cn_testbed_k8s.Base.{ℕ, Bool, false, List, [], Option, none, Text, Map, replicate}

pub data UeState : Type 0 where
  initialized ongoing ready down : UeState

pub record GnbPduSession : Type 0 where
  pub pdu_session_id : ℕ
  pub upf_ip : Text
  pub sst : Text
  pub sd : Text
  pub uplink_teid : ℕ  -- uint32
  pub downlink_teid : ℕ  -- uint32
  pub pdu_type : ℕ
  pub qos_id : ℕ
  pub five_qi : ℕ
  pub pri_arp : ℕ

-- `[16]*GnbPDUSession`
abbrev pub Sessions : Type 0
Sessions = List (Option GnbPduSession)

abbrev pub no_sessions : Sessions
no_sessions = replicate 16 none

pub record Context : Type 0 where
  pub mcc : Text
  pub mnc : Text
  pub masked_imeisv : Text
  pub pdu_session : Sessions
  pub allowed_sst : List Text
  pub allowed_sd : List Text
  pub ue_security_capabilities : Option ℕ

pub record GnbUe : Type 0 where
  pub ran_ue_ngap_id : ℕ  -- int64
  pub amf_ue_ngap_id : ℕ
  pub amf_id : ℕ
  pub state : UeState
  pub sctp_connection : Option ℕ
  pub gnb_rx : Option ℕ
  pub gnb_tx : Option ℕ
  pub pr_ue_id : ℕ
  pub tmsi : Option ℕ
  pub context : Context
  pub new_gnb : Option ℕ

-- `five_g_s_tmsi` is the pointer, and `tmsi` the octets behind it.
pub record PagedUe : Type 0 where
  pub five_g_s_tmsi : Option ℕ
  pub tmsi : List ℕ
  pub timestamp : ℕ

pub record UeMessage : Type 0 where
  pub gnb_pdu_sessions : Sessions
  pub gnb_ip : Text
  pub gnb_rx : Option ℕ
  pub gnb_tx : Option ℕ
  pub gnb_inbound_channel : Option ℕ
  pub is_nas : Bool
  pub nas : Option (List ℕ)
  pub connection_closed : Bool
  pub pr_ue_id : ℕ
  pub tmsi : Option ℕ
  pub mcc : Text
  pub mnc : Text
  pub ue_context : Option GnbUe
  pub is_handover : Bool
  pub idle : Bool
  pub fetch_paged_ues : Bool
  pub paged_ues : List PagedUe

-- `context.UEMessage{}`
abbrev pub empty_message : UeMessage
empty_message = record {
  gnb_pdu_sessions = no_sessions;
  gnb_ip = [];
  gnb_rx = none;
  gnb_tx = none;
  gnb_inbound_channel = none;
  is_nas = false;
  nas = none;
  connection_closed = false;
  pr_ue_id = 0;
  tmsi = none;
  mcc = [];
  mnc = [];
  ue_context = none;
  is_handover = false;
  idle = false;
  fetch_paged_ues = false;
  paged_ues = [];
}

pub data AmfState : Type 0 where
  inactive active overload : AmfState

pub record Tnla : Type 0 where
  pub sctp_conn : Option ℕ
  pub tnla_weight_factor : ℕ
  pub usage : ℕ
  pub streams : ℕ

pub record Plmn : Type 0 where
  pub mcc : Text
  pub mnc : Text

pub record Slice : Type 0 where
  pub sst : Text
  pub sd : Text

-- The linked lists of PLMNs and of slices are lists: `next` is the tail. A bit string is a number.
pub record GnbAmf : Type 0 where
  pub amf_ip : Text
  pub amf_port : ℕ
  pub amf_id : ℕ
  pub tnla : Tnla
  pub relative_amf_capacity : ℕ
  pub state : AmfState
  pub name : Text
  pub region_id : ℕ
  pub set_id : ℕ
  pub pointer : ℕ
  pub plmns : List Plmn
  pub slices : List Slice
  pub len_slice : ℕ
  pub len_plmn : ℕ

-- What the gNodeB hands to the NGAP encoder, by message; `nothing` is a nil byte slice.
pub data NgapMessage : Type 0 where
  nothing : NgapMessage
  initial_ue_message uplink_nas_transport : (ran_ue_id : ℕ) (nas : Option (List ℕ)) → NgapMessage
  pdu_session_resource_setup_response : (sessions : List (Option GnbPduSession)) → NgapMessage
  pdu_session_release_response : (ids : List ℕ) → NgapMessage
  initial_context_setup_response ue_context_release_request ue_context_release_complete :
      (ran_ue_id amf_ue_id : ℕ) → NgapMessage
  ng_setup_request amf_configuration_update_acknowledge : NgapMessage
  path_switch_request handover_request_acknowledge handover_notify :
      (ran_ue_id amf_ue_id : ℕ) (sessions : Sessions) → NgapMessage
  handover_required : (target : ℕ) (ran_ue_id amf_ue_id : ℕ) → NgapMessage

pub data Sent : Type 0 where
  to_amf : (conn : Option ℕ) → NgapMessage → Sent
  to_channel : (channel : ℕ) → UeMessage → Sent
  closed : (channel : ℕ) → Sent
  released : (conn : Option ℕ) → Sent

pub record Gnb : Type 0 where
  pub inbound_channel : ℕ
  pub mcc : Text
  pub mnc : Text
  pub gnb_id : Text
  pub n3_ip : Text
  pub ue_heap : Map GnbUe
  pub next_ptr : ℕ
  pub ue_pool : Map ℕ
  pub pr_ue_pool : Map ℕ
  pub teid_pool : Map ℕ
  pub amf_heap : Map GnbAmf
  pub amf_pool : List ℕ
  pub id_ue_generator : ℕ  -- int64
  pub id_amf_generator : ℕ  -- int64
  pub teid_generator : ℕ  -- uint32
  pub paged_ues : List PagedUe
  pub paged_locked : Bool
  pub n2 : Option ℕ
  pub sent : List Sent
