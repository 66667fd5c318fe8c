-- ===== src/Gnb/Ngap/Transport.antt =====
-- `HandlerDownlinkNasTransport`, `HandlerPduSessionReleaseCommand`, `HandlerUeContextReleaseCommand`
-- and `HandlerErrorIndication` of
-- PacketRusher/internal/control_test_engine/gnb/ngap/handler.go.
use g_cn_testbed_k8s.Base.{
  ℕ, List, [], ◌∷◌, ◌++◌, Option, none, some, Result, ok, fatal, panic, ◌>>=◌,
}
use g_cn_testbed_k8s.Gnb.State.{Gnb, GnbUe}
use g_cn_testbed_k8s.Gnb.Ue.{answer, refused, get_pdu_session, delete_pdu_session}
use g_cn_testbed_k8s.Gnb.Pools.{get_gnb_ue, delete_gnb_ue}
use g_cn_testbed_k8s.Gnb.Ngap.{
  Ie, amf_ue_ngap_id, ran_ue_ngap_id, nas_pdu, release_list, ue_ngap_ids, Env, deref, put_ue,
  get_ue_from_context, send_to_ue, send_pdu_session_release_response,
  send_ue_context_release_complete,
}

pub record Downlink : Type 0 where
  pub ran_ue_id : ℕ
  pub amf_ue_id : ℕ
  pub message_nas : Option (List ℕ)

-- The loop over the elements; a missing value ends the process.
pub scan_downlink : List Ie → Downlink → Result Downlink
scan_downlink [] s = ok s
scan_downlink (amf_ue_ngap_id none ∷ l) s = fatal
scan_downlink (amf_ue_ngap_id (some v) ∷ l) s = scan_downlink l (record s { amf_ue_id = v })
scan_downlink (ran_ue_ngap_id none ∷ l) s = fatal
scan_downlink (ran_ue_ngap_id (some v) ∷ l) s = scan_downlink l (record s { ran_ue_id = v })
scan_downlink (nas_pdu none ∷ l) s = fatal
scan_downlink (nas_pdu (some v) ∷ l) s = scan_downlink l (record s { message_nas = some v })
scan_downlink (_ ∷ l) s = scan_downlink l s

unfoldable pub handler_downlink_nas_transport : Gnb → List Ie → Result Gnb
unfolding scan_downlink
handler_downlink_nas_transport g ies = do
  s ← scan_downlink ies (record { ran_ue_id = 0; amf_ue_id = 0; message_nas = none })
  (found, g') ← get_ue_from_context g s.ran_ue_id s.amf_ue_id
  elim found [ none ↦ ok g' | some p ↦ send_to_ue g' p s.message_nas ]

pub record Release : Type 0 where
  pub ran_ue_id : ℕ
  pub amf_ue_id : ℕ
  pub message_nas : Option (List ℕ)
  pub pdu_session_ids : List ℕ

-- Here a missing NAS PDU is logged, and the nil pointer is then used.
pub scan_release : List Ie → Release → Result Release
scan_release [] s = ok s
scan_release (amf_ue_ngap_id none ∷ l) s = fatal
scan_release (amf_ue_ngap_id (some v) ∷ l) s = scan_release l (record s { amf_ue_id = v })
scan_release (ran_ue_ngap_id none ∷ l) s = fatal
scan_release (ran_ue_ngap_id (some v) ∷ l) s = scan_release l (record s { ran_ue_id = v })
scan_release (nas_pdu none ∷ l) s = panic
scan_release (nas_pdu (some v) ∷ l) s = scan_release l (record s { message_nas = some v })
scan_release (release_list none ∷ l) s = fatal
scan_release (release_list (some ids) ∷ l) s =
    scan_release l (record s { pdu_session_ids = s.pdu_session_ids ++ ids })
scan_release (_ ∷ l) s = scan_release l s

-- The loop over the ids; a session that is not there is skipped.
unfoldable pub release_sessions : GnbUe → List ℕ → Result GnbUe
release_sessions ue [] = ok ue
release_sessions ue (id ∷ ids) = get_pdu_session ue id >>= λ found. elim found [
  | refused e ↦ release_sessions ue ids
  | answer none ↦ release_sessions ue ids
  | answer (some _) ↦ delete_pdu_session ue id >>= λ ue'. release_sessions ue' ids
]

unfoldable pub handler_pdu_session_release_command : Env → Gnb → List Ie → Result Gnb
unfolding scan_release
handler_pdu_session_release_command env g ies = do
  s ←
      scan_release ies
        (record { ran_ue_id = 0; amf_ue_id = 0; message_nas = none; pdu_session_ids = [] })
  (found, g') ← get_ue_from_context g s.ran_ue_id s.amf_ue_id
  elim found [
    | none ↦ ok g'
    | some p ↦ do
      ue ← deref g' p
      ue' ← release_sessions ue s.pdu_session_ids
      g2 ← send_pdu_session_release_response env (put_ue g' p ue') p s.pdu_session_ids
      send_to_ue g2 p s.message_nas
  ]

-- The last `UENGAPIDs` of the message.
pub scan_ue_id : List Ie → Option ℕ → Option ℕ
scan_ue_id [] s = s
scan_ue_id (ue_ngap_ids v ∷ l) s = scan_ue_id l (some v)
scan_ue_id (_ ∷ l) s = scan_ue_id l s

unfoldable pub handler_ue_context_release_command : Env → Gnb → List Ie → Result Gnb
unfolding scan_ue_id
handler_ue_context_release_command env g ies = elim (scan_ue_id ies none) [
  | none ↦ panic
  | some id ↦ elim (get_gnb_ue g id) [
    | none ↦ ok g
    | some p ↦ delete_gnb_ue g p >>= λ g'. send_ue_context_release_complete env g' p
  ]
]

-- `HandlerErrorIndication` only logs.
pub scan_error : List Ie → Result (Unit {0})
scan_error [] = ok tt
scan_error (amf_ue_ngap_id none ∷ l) = fatal
scan_error (ran_ue_ngap_id none ∷ l) = fatal
scan_error (_ ∷ l) = scan_error l

unfoldable pub handler_error_indication : Gnb → List Ie → Result Gnb
unfolding scan_error
handler_error_indication g ies = scan_error ies >>= λ _. ok g
