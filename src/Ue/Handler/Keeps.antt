-- ===== src/Ue/Handler/Keeps.antt =====
-- What the handlers of a UE's NAS messages leave of its 5GMM state.
use g_cn_testbed_k8s.Base.{
  ℕ, ◌≡◌, sym, ◌∙◌, true, List, Option, some, Text, ok, ◌>>=◌, >>=-eq-ok, or_panic, arith,
  Option-cases, inl, inr,
}
use g_cn_testbed_k8s.Ue.State.{
  Ue, mm5g_registered, set_state_mm, mm5g_registered_initiated, authentication_mac_failure,
  authentication_sync_failure, authentication_response, security_mode_complete,
  configuration_update_complete,
}
use g_cn_testbed_k8s.Ue.Sessions.{get_pdu_session, delete_pdu_session}
use g_cn_testbed_k8s.Ue.Auth.{
  Check, mac_failure, sqn_failure, successful, derive_res_star_and_set_key, set_key, derivate_kamf,
}
use g_cn_testbed_k8s.Ue.Encode.{
  NasEnv, secured, integrity_protected_and_ciphered,
  integrity_protected_and_ciphered_with_new_context, get_registration_request,
}
use g_cn_testbed_k8s.Ue.Message.{
  Header, RegistrationAccept, AuthenticationRequest, SecurityModeCommand, DlNasTransport,
  GsmMessage, establishment_accept, release_command, establishment_reject, other_gsm,
  EstablishmentAccept,
}
use g_cn_testbed_k8s.Ue.Trigger.{
  init_pdu_session_release_complete, init_configuration_update_complete,
}
use g_cn_testbed_k8s.Ue.Trigger.Keeps.{
  send_to_gnb-mm, secured-mm, send_secured-mm, release_complete-mm,
}
use g_cn_testbed_k8s.Ue.Handler.{
  handler_authentication_request, answer_authentication, check_authentication_request,
  check_security_mode_command, set_ngksi, handler_security_mode_command,
  handler_registration_accept, handler_configuration_update_command, check_header,
}
use g_cn_testbed_k8s.Ue.Handler.Session.{
  check_transport, handler_dl_nas_transport_pduaccept, accept_session, release_session,
  retry_session,
}

delete-mm : (ue u : Ue) (id : ℕ) → delete_pdu_session ue id ≡ ok u → u.state_mm ≡ ue.state_mm
unfolding delete_pdu_session
delete-mm ue u id h = ground arith

accept-mm :
    (ue u : Ue) (a : EstablishmentAccept) → accept_session ue a ≡ ok u → u.state_mm ≡ ue.state_mm
unfolding accept_session
accept-mm ue u a h = ground arith

module _ (env : NasEnv) where
  deleted-mm :
      (ue u : Ue) (id p : ℕ)
      → (delete_pdu_session ue id >>= λ v. init_pdu_session_release_complete env v p) ≡ ok u
      → u.state_mm ≡ ue.state_mm
  deleted-mm ue u id p h =
      let (v, e, k) = >>=-eq-ok (delete_pdu_session ue id) _ h in
      ground (arith, delete-mm ue v id e, release_complete-mm env v u p k)

  release_session-mm :
      (ue u : Ue) (id : ℕ) → release_session env ue id ≡ ok u → u.state_mm ≡ ue.state_mm
  unfolding release_session
  release_session-mm ue u id h =
      let (o, e, k) = >>=-eq-ok (get_pdu_session ue id) _ h in
      elim (Option-cases o) [
        | inl n ↦ ground arith
        | inr (p, n) ↦ ground (arith, deleted-mm ue u id p)
      ]

  retry-mm : (ue u : Ue) (id : ℕ) → retry_session env ue id ≡ ok u → u.state_mm ≡ ue.state_mm
  unfolding retry_session
  retry-mm ue u id h = ground arith

  derive-mm :
      (ue u : Ue) (rand autn param : List ℕ) (snn : Text) (check : Check)
      → derive_res_star_and_set_key env.crypto ue ue.security.subscription rand snn autn
        ≡ ok (u, param, check)
      → u.state_mm ≡ ue.state_mm
  unfolding derive_res_star_and_set_key set_key derivate_kamf
  derive-mm ue u rand autn param snn check h = ground arith

  answer-mm :
      (ue u : Ue) (param : List ℕ) (check : Check)
      → answer_authentication env ue param check ≡ u
      → u.state_mm ≡ mm5g_registered
      → ue.state_mm ≡ mm5g_registered
  unfolding answer_authentication
  answer-mm ue u param mac_failure h r =
      ground (arith, send_to_gnb-mm ue (some (env.plain ue.security authentication_mac_failure)))
  answer-mm ue u param sqn_failure h r =
      ground (
        arith,
        send_to_gnb-mm ue (some (env.plain ue.security (authentication_sync_failure param))),
      )
  answer-mm ue u param successful h r = ground (
    arith,
    send_to_gnb-mm (set_state_mm ue mm5g_registered_initiated)
        (some (env.plain ue.security (authentication_response param))),
  )

  pub authentication-mm :
      (ue u : Ue) (m : AuthenticationRequest)
      → handler_authentication_request env ue m ≡ ok u
      → u.state_mm ≡ mm5g_registered
      → ue.state_mm ≡ mm5g_registered
  unfolding handler_authentication_request
  authentication-mm ue u m h r =
      let (t, c, h1) = >>=-eq-ok (check_authentication_request m) _ h in
      let ((v, param, check), e, k) =
        >>=-eq-ok
          (derive_res_star_and_set_key env.crypto ue ue.security.subscription m.rand ue.security.snn
            m.autn)
          _ h1 in
      let s : answer_authentication env v param check ≡ u = ground arith in
      sym (derive-mm ue v m.rand m.autn param ue.security.snn check e)
      ∙ answer-mm v u param check s r

  pub command-mm :
      (ue u : Ue) (m : SecurityModeCommand)
      → handler_security_mode_command env ue m ≡ ok u
      → u.state_mm ≡ ue.state_mm
  unfolding handler_security_mode_command
  command-mm ue u m h =
      let (t, c, h1) = >>=-eq-ok (check_security_mode_command env m) _ h in
      let w = set_ngksi env ue m.ngksi m.tsc in
      let c =
        security_mode_complete (some (env.plain w.security (get_registration_request w true))) in
      let header = integrity_protected_and_ciphered_with_new_context in
      let ((v, pdu), e, k) = >>=-eq-ok (secured env w c header true) _ h1 in
      ground (arith, secured-mm env w v c header true pdu e, send_to_gnb-mm v (some pdu))

  pub accepted :
      (ue u : Ue) (m : RegistrationAccept)
      → handler_registration_accept env ue m ≡ ok u
      → (m.header.message_type ≡ 66) × (m.result ≡ 1)
  unfolding handler_registration_accept check_header
  accepted ue u m h = ground arith

  pub update-mm :
      (ue u : Ue) (m : Header)
      → handler_configuration_update_command env ue m ≡ ok u
      → u.state_mm ≡ ue.state_mm
  unfolding handler_configuration_update_command init_configuration_update_complete
  update-mm ue u m h =
      let (t, c, k) = >>=-eq-ok (check_header m 84) _ h in
      send_secured-mm env ue u configuration_update_complete integrity_protected_and_ciphered k

  gsm-mm :
      (ue u : Ue) (g : GsmMessage)
      → elim g [
        | establishment_accept a ↦ accept_session ue a
        | release_command id ↦ release_session env ue id
        | establishment_reject id ↦ retry_session env ue id
        | other_gsm ↦ ok ue
      ]
        ≡ ok u
      → u.state_mm ≡ ue.state_mm
  gsm-mm ue u (establishment_accept a) h = accept-mm ue u a h
  gsm-mm ue u (release_command id) h = release_session-mm ue u id h
  gsm-mm ue u (establishment_reject id) h = retry-mm ue u id h
  gsm-mm ue u other_gsm h = ground arith

  pub transport-mm :
      (ue u : Ue) (decode : List ℕ → Option GsmMessage) (m : DlNasTransport)
      → handler_dl_nas_transport_pduaccept env decode ue m ≡ ok u
      → u.state_mm ≡ ue.state_mm
  unfolding handler_dl_nas_transport_pduaccept
  transport-mm ue u decode m h =
      let (t, c, h1) = >>=-eq-ok (check_transport m) _ h in
      let (contents, d, h2) = >>=-eq-ok (or_panic m.contents) _ h1 in
      let (g, e, h3) = >>=-eq-ok (or_panic (decode contents)) _ h2 in gsm-mm ue u g h3
