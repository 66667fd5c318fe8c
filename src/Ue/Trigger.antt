-- ===== src/Ue/Trigger.antt =====
-- PacketRusher/internal/control_test_engine/ue/nas/trigger/trigger.go.
pub mod Keeps
use g_cn_testbed_k8s.Base.{
  ℕ, ◌+◌, Bool, true, false, List, [], ◌∷◌, Option, none, some, Result, ok, fatal, ◌>>=◌, length,
  ◌==◌, if◌then◌else◌,
}
use g_cn_testbed_k8s.Gnb.State.{empty_message}
use g_cn_testbed_k8s.Ue.State.{
  Ue, UePduSession, StateSm, pdu_session_inactive, pdu_session_active_pending, pdu_session_active,
  mm5g_deregistered, Uplink, registration_complete, configuration_update_complete,
  identity_response, establishment_request, release_request, release_complete,
  deregistration_request, service_request, set_state_mm, put_session, deref_session, send_to_gnb,
  send_to_gnb_msg,
}
use g_cn_testbed_k8s.Ue.Sessions.{create_pdu_session}
use g_cn_testbed_k8s.Ue.Auth.{or_fatal}
use g_cn_testbed_k8s.Ue.Encode.{
  NasEnv, secured, integrity_protected, integrity_protected_and_ciphered, get_registration_request,
  pdu_flag,
}

abbrev pub is_active : StateSm → Bool
is_active pdu_session_active = true
is_active _ = false

abbrev pub is_inactive : StateSm → Bool
is_inactive pdu_session_inactive = true
is_inactive _ = false

module _ (env : NasEnv) where
  -- A message that is protected and sent.
  unfoldable pub send_secured : Ue → Uplink → ℕ → Result Ue
  unfolding secured
  send_secured ue m header = secured env ue m header false >>= λ r. ok (send_to_gnb r.0 (some r.1))

  -- `InitRegistration`
  unfoldable pub init_registration : Ue → Result Ue
  unfolding send_secured
  init_registration ue =
      (if length ue.security.kamf == 0
        then ok (send_to_gnb ue (some (env.plain ue.security (get_registration_request ue false))))
        else send_secured ue (get_registration_request ue false) integrity_protected)
      >>= λ u. ok (set_state_mm u mm5g_deregistered)

  -- `InitPduSessionRequestInner`
  unfoldable pub init_pdu_session_request_inner : Ue → ℕ → Result Ue
  unfolding secured
  init_pdu_session_request_inner ue p = do
    s ← deref_session ue p
    (u, pdu) ← secured env ue (establishment_request s.id) integrity_protected_and_ciphered false
    ok (
        send_to_gnb (put_session u p (record s { state_sm = pdu_session_active_pending }))
          (some pdu))

  -- `InitPduSessionRequest`
  unfoldable pub init_pdu_session_request : Ue → Result Ue
  unfolding init_pdu_session_request_inner
  init_pdu_session_request ue =
      let (u, made) = create_pdu_session ue in
      or_fatal made >>= λ p. init_pdu_session_request_inner u p

  -- `InitPduSessionRelease`
  unfoldable pub init_pdu_session_release : Ue → ℕ → Result Ue
  unfolding secured
  init_pdu_session_release ue p = deref_session ue p >>= λ s.
      if is_active s.state_sm
      then (secured env ue (release_request s.id) integrity_protected_and_ciphered false >>= λ r.
          ok (
            send_to_gnb (put_session r.0 p (record s { state_sm = pdu_session_inactive }))
              (some r.1)))
      else ok ue

  -- `InitPduSessionReleaseComplete`
  unfoldable pub init_pdu_session_release_complete : Ue → ℕ → Result Ue
  unfolding send_secured
  init_pdu_session_release_complete ue p = deref_session ue p >>= λ s.
      if is_inactive s.state_sm
      then send_secured ue (release_complete s.id) integrity_protected_and_ciphered
      else ok ue

  -- `InitDeregistration`
  unfoldable pub init_deregistration : Ue → Result Ue
  unfolding send_secured
  init_deregistration ue =
      send_secured ue (deregistration_request ue.security.ksi ue.security.guti)
        integrity_protected_and_ciphered
      >>= λ u. ok (set_state_mm u mm5g_deregistered)

  -- `InitIdentifyResponse`
  unfoldable pub init_identify_response : Ue → Result Ue
  init_identify_response ue = ok (send_to_gnb ue (some (env.plain ue.security identity_response)))

  -- `InitConfigurationUpdateComplete`
  unfoldable pub init_configuration_update_complete : Ue → Result Ue
  unfolding send_secured
  init_configuration_update_complete ue =
      send_secured ue configuration_update_complete integrity_protected_and_ciphered

  -- `InitServiceRequest`
  unfoldable pub init_service_request : Ue → Result Ue
  unfolding send_secured
  init_service_request ue =
      send_secured ue (service_request ue.security.guti (pdu_flag ue)) integrity_protected

-- `SwitchToIdle`
unfoldable pub switch_to_idle : Ue → Ue
switch_to_idle ue = send_to_gnb_msg ue (record empty_message { idle = true })
