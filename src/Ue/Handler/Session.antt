-- ===== src/Ue/Handler/Session.antt =====
-- `HandlerDlNasTransportPduaccept` of
-- PacketRusher/internal/control_test_engine/ue/nas/handler/handler.go, with the timer T3580 that it
-- starts.
use g_cn_testbed_k8s.Base.{
  ℕ, ◌+◌, Bool, true, false, not, List, ◌∷◌, Option, none, some, Result, ok, panic, ◌>>=◌, ◌>>◌,
  fatal_if, or_panic, ltb, ◌==◌, if◌then◌else◌,
}
use g_cn_testbed_k8s.Ue.State.{Ue, pdu_session_active, deref_session, put_session}
use g_cn_testbed_k8s.Ue.Sessions.{get_pdu_session, delete_pdu_session}
use g_cn_testbed_k8s.Ue.Encode.{NasEnv}
use g_cn_testbed_k8s.Ue.Message.{
  DlNasTransport, GsmMessage, establishment_accept, release_command, establishment_reject,
  other_gsm, EstablishmentAccept,
}
use g_cn_testbed_k8s.Ue.Trigger.{init_pdu_session_release_complete, init_pdu_session_request_inner}
use g_cn_testbed_k8s.Ue.Handler.{is_set, contents_missing}
use g_cn_testbed_k8s.Gnb.Ngap.Resource.{dotted}

abbrev pub is_iei : Option ℕ → Bool
is_iei none = false
is_iei (some i) = i == 18

unfoldable pub check_transport : DlNasTransport → Result (Unit {0})
check_transport m = do
  fatal_if (not (is_set m.header.epd))
  fatal_if (not (m.header.epd == 126))
  fatal_if (is_set m.header.spare)
  fatal_if (is_set m.header.security_header_type)
  fatal_if (not (m.header.message_type == 104))
  fatal_if (not m.container_type_set)
  fatal_if (not (m.container_type == 1))
  fatal_if (not m.container_set)
  fatal_if (contents_missing m.contents)
  fatal_if (not (is_iei m.pdu_session_id_iei))

unfoldable pub check_accept : EstablishmentAccept → Result (Unit {0})
check_accept a = do
  fatal_if (not (is_set a.epd))
  fatal_if (not (a.epd == 46))
  fatal_if (not (is_set a.pdu_session_id))
  fatal_if (not (is_set a.pti))
  fatal_if (not (a.pti == 1))
  fatal_if (not (a.message_type == 194))
  fatal_if (not (is_set a.ssc_mode_and_type))
  fatal_if (not (a.pdu_session_type == 1))
  fatal_if (not a.qos_rules_set)
  fatal_if (not a.session_ambr_set)

abbrev panic_if : Bool → Result (Unit {0})
panic_if true = panic
panic_if false = ok tt

-- An establishment accept. The state of the session is set before the error is looked at, so that
-- a session that is not found is a nil pointer that is used.
unfoldable pub accept_session : Ue → EstablishmentAccept → Result Ue
unfolding check_accept
accept_session ue a = do
  check_accept a
  found ← get_pdu_session ue a.pdu_session_id
  p ← or_panic found
  s ← deref_session ue p
  address ← or_panic a.address
  ue_ip ← dotted address
  panic_if (not a.dnn_set)
  panic_if (not a.snssai_set)
  ok (put_session ue p (record s { state_sm = pdu_session_active; ue_ip = ue_ip }))

module _ (env : NasEnv) where
  -- A release command; the complete message is about the session that has left the table.
  unfoldable pub release_session : Ue → ℕ → Result Ue
  release_session ue id = get_pdu_session ue id >>= λ found. elim found [
    | none ↦ ok ue
    | some p ↦ delete_pdu_session ue id >>= λ u. init_pdu_session_release_complete env u p
  ]

  -- An establishment reject: the timer is started, up to five times.
  unfoldable pub retry_session : Ue → ℕ → Result Ue
  retry_session ue id = get_pdu_session ue id >>= λ found. elim found [
    | none ↦ ok ue
    | some p ↦ deref_session ue p >>= λ s.
        ok (if ltb s.t3580_retries 5 then record ue { t3580 = p ∷ ue.t3580 } else ue)
  ]

  -- The goroutine that the reject has started, when its time has come.
  unfoldable pub expire_t3580 : Ue → ℕ → Result Ue
  expire_t3580 ue p = do
    u ← init_pdu_session_request_inner env ue p
    s ← deref_session u p
    ok (put_session u p (record s { t3580_retries = s.t3580_retries + 1 }))

  -- `HandlerDlNasTransportPduaccept`, with what the payload decodes to, if it does.
  unfoldable pub handler_dl_nas_transport_pduaccept :
      (List ℕ → Option GsmMessage) → Ue → DlNasTransport → Result Ue
  unfolding check_transport accept_session release_session retry_session
  handler_dl_nas_transport_pduaccept decode ue m = do
    check_transport m
    contents ← or_panic m.contents
    gsm ← or_panic (decode contents)
    elim gsm [
      | establishment_accept a ↦ accept_session ue a
      | release_command id ↦ release_session ue id
      | establishment_reject id ↦ retry_session ue id
      | other_gsm ↦ ok ue
    ]
