-- ===== src/Gnb/Ngap.antt =====
-- The NGAP side of the gNodeB: the messages that are decoded, the libraries that it calls, and the
-- senders that its handlers share. Source: gnb/ngap/handler.go, gnb/ngap/trigger/trigger.go,
-- gnb/ngap/message/sender/send.go and gnb/nas/message/sender/send.go in
-- PacketRusher/internal/control_test_engine.
pub mod Transport
pub mod Setup
pub mod Resource
pub mod Amf
pub mod Update
pub mod Status
pub mod Switch
pub mod HandoverRequest
pub mod Mobility
pub mod Page
pub mod Dispatch
use g_cn_testbed_k8s.Base.{
  ℕ, ◌+◌, ◌*◌, Bool, true, false, not, List, [], ◌∷◌, Option, none, some, Text, Result, ok, fatal,
  panic, ◌>>=◌, ◌>>◌, fatal_if, or_panic, lookup, insert, if◌then◌else◌,
}
use g_cn_testbed_k8s.Gnb.State.{
  Gnb, GnbUe, NgapMessage, nothing, Sent, to_amf, to_channel, UeMessage, empty_message, UeState,
  ready, initial_context_setup_response, pdu_session_resource_setup_response, GnbPduSession,
  pdu_session_release_response, ue_context_release_request, ue_context_release_complete,
}
use g_cn_testbed_k8s.Gnb.Pools.{get_gnb_ue}

pub record Snssai : Type 0 where
  pub sst : Option (List ℕ)
  pub sd : Option (List ℕ)

-- An information element of a `PDUSessionResourceSetupRequestTransfer`.
pub data TransferIe : Type 0 where
  ul_ng_u_up_tnl : (address teid : List ℕ) → TransferIe
  qos_flow : (qos_id five_qi pri_arp : ℕ) → TransferIe
  pdu_session_type : ℕ → TransferIe
  other_transfer : TransferIe

pub record SetupItem : Type 0 where
  pub pdu_session_id : ℕ
  pub snssai : Snssai
  pub nas_pdu : Option (List ℕ)
  pub transfer : Option (List ℕ)

pub record SwitchedItem : Type 0 where
  pub pdu_session_id : ℕ
  pub transfer : List ℕ

pub record Guami : Type 0 where
  pub plmn : List ℕ
  pub region_id : ℕ
  pub set_id : ℕ
  pub pointer : ℕ

-- An entry of a PLMN support list; a nil slice support list is an empty one.
pub record PlmnSupport : Type 0 where
  pub plmn : List ℕ
  pub slices : Option (List Snssai)

-- An address of an AMF that is to be added, removed or updated. The usage may be nil, and so may the
-- weight where it is to be updated.
pub record Association : Type 0 where
  pub bit_length : ℕ
  pub address : List ℕ
  pub usage : Option ℕ
  pub weight : Option ℕ

pub record UnavailableGuami : Type 0 where
  pub guami : Guami
  pub backup_amf_name : Option Text

-- An information element of an NGAP message, by its id. `none` is a nil pointer in its value.
pub data Ie : Type 0 where
  amf_ue_ngap_id ran_ue_ngap_id : Option ℕ → Ie
  nas_pdu : Option (List ℕ) → Ie
  security_key guami : Bool → Ie
  allowed_nssai : Option (List Snssai) → Ie
  mobility_restriction_list : Option (List ℕ) → Ie
  masked_imeisv : Option (List ℕ) → Ie
  ue_security_capabilities : Option ℕ → Ie
  setup_list : Option (List SetupItem) → Ie
  release_list : Option (List ℕ) → Ie
  ue_ngap_ids : ℕ → Ie
  switched_list : Option (List SwitchedItem) → Ie
  source_to_target_container : Option (List ℕ) → Ie
  handover_list : Option (List SetupItem) → Ie
  -- The 5G-S-TMSI is a pointer, with the octets behind it.
  ue_paging_identity : Option (Option (ℕ × List ℕ)) → Ie
  tai_list_for_paging : Bool → Ie
  amf_name : Option Text → Ie
  -- The three flags of a served GUAMI say that its region, its pointer and its set are there.
  served_guami_list : Option (List (Guami × Bool × Bool × Bool)) → Ie
  relative_amf_capacity : Option ℕ → Ie
  plmn_support_list : Option (List PlmnSupport) → Ie
  to_add_list to_remove_list to_update_list : List Association → Ie
  unavailable_guami_list : List UnavailableGuami → Ie
  other_ie : Ie

-- The libraries behind the gNodeB: the NGAP encoder and decoders of free5gc, and SCTP. `write` says
-- whether the write to an association succeeds; on a nil association it may panic.
pub record Env : Type 0 where
  pub encodes : NgapMessage → Bool
  pub write : Option ℕ → NgapMessage → Result Bool
  pub decode_transfer : List ℕ → Option (List TransferIe)
  pub decode_switch : List ℕ → Option (Option (List ℕ × List ℕ))
  pub decode_container : List ℕ → Option (Option ℕ)
  pub ip_address_to_string : List ℕ → Text
  -- `InitConn`: the new association, or an error.
  pub dial : Text → ℕ → Option ℕ

-- `log.Fatal` on a nil pointer.
abbrev pub or_fatal {ℓ} : {A : Type ℓ} → Option A → Result A
or_fatal none = fatal
or_fatal (some a) = ok a

-- The UE behind a pointer.
unfoldable pub deref : Gnb → ℕ → Result GnbUe
deref g p = or_panic (lookup p g.ue_heap)

abbrev pub put_ue : Gnb → ℕ → GnbUe → Gnb
put_ue g p ue = record g { ue_heap = insert p ue g.ue_heap }

-- `getUeFromContext`: the UE with the RAN id, which takes over the AMF id; nil if there is none.
unfoldable pub get_ue_from_context : Gnb → ℕ → ℕ → Result (Option ℕ × Gnb)
unfolding deref get_gnb_ue
get_ue_from_context g ran_ue_id amf_ue_id = elim (get_gnb_ue g ran_ue_id) [
  | none ↦ ok (none, g)
  | some p ↦ deref g p >>= λ ue. ok (some p, put_ue g p (record ue { amf_ue_ngap_id = amf_ue_id }))
]

-- `SendMessageToUe`: on a nil channel only a warning is logged.
unfoldable pub send_message_to_ue : Gnb → ℕ → UeMessage → Result Gnb
unfolding deref
send_message_to_ue g p m = deref g p >>= λ ue. elim ue.gnb_tx [
  | none ↦ ok g
  | some c ↦ ok (record g { sent = to_channel c m ∷ g.sent })
]

-- `SendToUe`
unfoldable pub send_to_ue : Gnb → ℕ → Option (List ℕ) → Result Gnb
unfolding send_message_to_ue
send_to_ue g p nas = send_message_to_ue g p (record empty_message { is_nas = true; nas = nas })

module _ (env : Env) where
  -- A sender that leaves the process if the message cannot be encoded or written.
  unfoldable pub send_or_fatal : Gnb → Option ℕ → NgapMessage → Result Gnb
  send_or_fatal g conn m = do
    fatal_if (not (env.encodes m))
    written ← env.write conn m
    fatal_if (not written)
    ok (record g { sent = to_amf conn m ∷ g.sent })

  abbrev encoded : NgapMessage → NgapMessage
  encoded m = if env.encodes m then m else nothing

  -- A sender that logs a failure to encode, and leaves the process if the write fails.
  unfoldable pub send_encoded : Gnb → Option ℕ → NgapMessage → Result Gnb
  send_encoded g conn m = do
    written ← env.write conn (encoded m)
    fatal_if (not written)
    ok (record g { sent = to_amf conn (encoded m) ∷ g.sent })

  -- A sender that logs both failures.
  unfoldable pub send_logged : Gnb → Option ℕ → NgapMessage → Result Gnb
  send_logged g conn m = env.write conn (encoded m) >>= λ written.
      ok (if written then record g { sent = to_amf conn (encoded m) ∷ g.sent } else g)

  -- `SendPduSessionResourceSetupResponse`, which makes the UE ready.
  unfoldable pub send_pdu_session_resource_setup_response :
      Gnb → ℕ → List (Option GnbPduSession) → Result Gnb
  unfolding deref send_or_fatal
  send_pdu_session_resource_setup_response g p sessions = deref g p >>= λ ue.
      send_or_fatal (put_ue g p (record ue { state = ready })) ue.sctp_connection
        (pdu_session_resource_setup_response sessions)

  -- `SendPduSessionReleaseResponse`
  unfoldable pub send_pdu_session_release_response : Gnb → ℕ → List ℕ → Result Gnb
  unfolding deref send_or_fatal
  send_pdu_session_release_response g p ids = do
    fatal_if (elim ids [ [] ↦ true | _ ∷ _ ↦ false ])
    ue ← deref g p
    send_or_fatal g ue.sctp_connection (pdu_session_release_response ids)

  -- `SendInitialContextSetupResponse`
  unfoldable pub send_initial_context_setup_response : Gnb → ℕ → Result Gnb
  unfolding deref send_or_fatal
  send_initial_context_setup_response g p = deref g p >>= λ ue.
      send_or_fatal g ue.sctp_connection
        (initial_context_setup_response ue.ran_ue_ngap_id ue.amf_ue_ngap_id)

  -- `SendUeContextReleaseRequest`
  unfoldable pub send_ue_context_release_request : Gnb → ℕ → Result Gnb
  unfolding deref send_or_fatal
  send_ue_context_release_request g p = deref g p >>= λ ue.
      send_or_fatal g ue.sctp_connection
        (ue_context_release_request ue.ran_ue_ngap_id ue.amf_ue_ngap_id)

  -- `SendUeContextReleaseComplete`
  unfoldable pub send_ue_context_release_complete : Gnb → ℕ → Result Gnb
  unfolding deref send_or_fatal
  send_ue_context_release_complete g p = deref g p >>= λ ue.
      send_or_fatal g ue.sctp_connection
        (ue_context_release_complete ue.ran_ue_ngap_id ue.amf_ue_ngap_id)
