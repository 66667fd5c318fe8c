-- ===== src/Ue/Message.antt =====
-- The downlink NAS messages as the library decodes them, with the fields that
-- ue/nas/dispatcher.go and ue/nas/handler/handler.go in PacketRusher/internal/control_test_engine
-- read. A flag `..._set` says that a value is not zero, and an option that a pointer is not nil.
use g_cn_testbed_k8s.Base.{ℕ, Bool, List, Option}

-- What the handlers check of the header of every message: the protocol discriminator, the two
-- halves of the next octet, and the octet with the message type.
pub record Header : Type 0 where
  pub epd : ℕ
  pub spare : ℕ
  pub security_header_type : ℕ
  pub message_type : ℕ

pub record AuthenticationRequest : Type 0 where
  pub header : Header
  pub ngksi_spare : ℕ
  pub ngksi : ℕ
  pub abba_set : Bool
  pub abba_contents : Option (List ℕ)
  pub rand : List ℕ  -- [16]uint8
  pub autn : List ℕ  -- [16]uint8

-- `algorithms` is the octet, with the ciphering algorithm in its upper half.
pub record SecurityModeCommand : Type 0 where
  pub header : Header
  pub algorithms : ℕ
  pub ngksi_spare : ℕ
  pub ngksi : ℕ
  pub tsc : ℕ
  pub replayed_set : Bool

pub record RegistrationAccept : Type 0 where
  pub header : Header
  pub result_set : Bool
  pub result : ℕ
  pub guti : Option (ℕ × List ℕ)
  pub allowed_nssai : Option (List ℕ)

pub record DlNasTransport : Type 0 where
  pub header : Header
  pub container_type_set : Bool
  pub container_type : ℕ
  pub container_set : Bool
  pub contents : Option (List ℕ)
  pub pdu_session_id_iei : Option ℕ

pub record IdentityRequest : Type 0 where
  pub header : Header
  pub identity_type_set : Bool
  pub type_of_identity : ℕ

-- `no_message` is a nil GMM message.
pub data Message : Type 0 where
  no_message authentication_reject service_accept other_message : Message
  -- Service Reject, Registration Reject and the two Status messages, whose cause is logged.
  with_cause : Message
  authentication_request : AuthenticationRequest → Message
  identity_request : IdentityRequest → Message
  security_mode_command : SecurityModeCommand → Message
  registration_accept : RegistrationAccept → Message
  configuration_update_command : Header → Message
  dl_nas_transport : DlNasTransport → Message

pub record EstablishmentAccept : Type 0 where
  pub epd : ℕ
  pub pdu_session_id : ℕ
  pub pti : ℕ
  pub message_type : ℕ
  pub ssc_mode_and_type : ℕ
  pub pdu_session_type : ℕ
  pub qos_rules_set : Bool
  pub session_ambr_set : Bool
  pub address : Option (List ℕ)
  pub dnn_set : Bool
  pub snssai_set : Bool

-- The payload of a DL NAS Transport.
pub data GsmMessage : Type 0 where
  establishment_accept : EstablishmentAccept → GsmMessage
  release_command establishment_reject : (pdu_session_id : ℕ) → GsmMessage
  other_gsm : GsmMessage
