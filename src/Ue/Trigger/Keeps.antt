-- ===== src/Ue/Trigger/Keeps.antt =====
-- What the triggers of a UE leave of its 5GMM state.
use g_cn_testbed_k8s.Base.{
  ℕ, ◌≡◌, Bool, true, false, List, Option, some, ok, ◌>>=◌, >>=-eq-ok, arith, if◌then◌else◌,
}
use g_cn_testbed_k8s.Gnb.State.{UeMessage}
use g_cn_testbed_k8s.Ue.State.{
  Ue, UePduSession, Uplink, mm5g_deregistered, send_to_gnb, send_to_gnb_msg, deref_session,
  pdu_session_inactive, pdu_session_active_pending, release_request, establishment_request,
  release_complete, service_request, put_session,
}
use g_cn_testbed_k8s.Ue.Sessions.{create_pdu_session}
use g_cn_testbed_k8s.Ue.Auth.{or_fatal}
use g_cn_testbed_k8s.Ue.Encode.{
  NasEnv, nas_encode, encode_nas_pdu_with_security, secured, integrity_protected,
  integrity_protected_and_ciphered, pdu_flag,
}
use g_cn_testbed_k8s.Ue.Trigger.{
  is_active, send_secured, init_registration, init_pdu_session_request_inner,
  init_pdu_session_request, init_pdu_session_release, init_pdu_session_release_complete,
  init_deregistration, init_service_request,
}

pub send_to_gnb_msg-mm : (ue : Ue) (m : UeMessage) → (send_to_gnb_msg ue m).state_mm ≡ ue.state_mm
unfolding send_to_gnb_msg
send_to_gnb_msg-mm ue m = ground arith

pub send_to_gnb-mm : (ue : Ue) (nas : Option (List ℕ)) → (send_to_gnb ue nas).state_mm ≡ ue.state_mm
unfolding send_to_gnb
send_to_gnb-mm ue nas = send_to_gnb_msg-mm ue _

create-mm : (ue : Ue) → (create_pdu_session ue).0.state_mm ≡ ue.state_mm
unfolding create_pdu_session
create-mm ue = ground arith

module _ (env : NasEnv) where
  encode-mm :
      (ue : Ue) (msg : List ℕ) (header : ℕ) (new : Bool)
      → (nas_encode env ue msg header true new).0.state_mm ≡ ue.state_mm
  unfolding nas_encode
  encode-mm ue msg header new = ground arith

  pub secured-mm :
      (ue u : Ue) (m : Uplink) (header : ℕ) (new : Bool) (p : List ℕ)
      → secured env ue m header new ≡ ok (u, p)
      → u.state_mm ≡ ue.state_mm
  unfolding secured encode_nas_pdu_with_security
  secured-mm ue u m header new p h =
      ground (arith, encode-mm ue (env.plain ue.security m) header new)

  pub send_secured-mm :
      (ue u : Ue) (m : Uplink) (header : ℕ)
      → send_secured env ue m header ≡ ok u
      → u.state_mm ≡ ue.state_mm
  unfolding send_secured
  send_secured-mm ue u m header h =
      let ((v, p), e, k) = >>=-eq-ok (secured env ue m header false) _ h in
      ground (arith, send_to_gnb-mm v (some p), secured-mm ue v m header false p e)

  pub registration-mm :
      (ue u : Ue) → init_registration env ue ≡ ok u → u.state_mm ≡ mm5g_deregistered
  unfolding init_registration
  registration-mm ue u h = ground arith

  pub deregistration-mm :
      (ue u : Ue) → init_deregistration env ue ≡ ok u → u.state_mm ≡ mm5g_deregistered
  unfolding init_deregistration
  deregistration-mm ue u h = ground arith

  pub inner-mm :
      (ue u : Ue) (p : ℕ)
      → init_pdu_session_request_inner env ue p ≡ ok u
      → u.state_mm ≡ ue.state_mm
  unfolding init_pdu_session_request_inner
  inner-mm ue u p h =
      let (s, e, h1) = >>=-eq-ok (deref_session ue p) _ h in
      let ((v, pdu), d, k) =
        >>=-eq-ok
          (secured env ue (establishment_request s.id) integrity_protected_and_ciphered false) _
          h1 in
      ground (
        arith,
        secured-mm ue v (establishment_request s.id) integrity_protected_and_ciphered false pdu d,
        send_to_gnb-mm (put_session v p (record s { state_sm = pdu_session_active_pending }))
            (some pdu),
      )

  pub request-mm : (ue u : Ue) → init_pdu_session_request env ue ≡ ok u → u.state_mm ≡ ue.state_mm
  unfolding init_pdu_session_request
  request-mm ue u h =
      let (p, e, k) = >>=-eq-ok (or_fatal (create_pdu_session ue).1) _ h in
      ground (arith, create-mm ue, inner-mm (create_pdu_session ue).0 u p k)

  -- The two branches of a release.
  released-mm :
      (ue u : Ue) (p : ℕ) (s : UePduSession) (test : Bool)
      → (if test
          then (secured env ue (release_request s.id) integrity_protected_and_ciphered false
              >>= λ r. ok (
                  send_to_gnb
                    (put_session r.0 p (record s { state_sm = pdu_session_inactive }))
                    (some r.1)))
          else ok ue)
        ≡ ok u
      → u.state_mm ≡ ue.state_mm
  released-mm ue u p s false h = ground arith
  released-mm ue u p s true h =
      let ((v, pdu), d, l) =
        >>=-eq-ok (secured env ue (release_request s.id) integrity_protected_and_ciphered false) _
          h in
      ground (
        arith,
        secured-mm ue v (release_request s.id) integrity_protected_and_ciphered false pdu d,
        send_to_gnb-mm (put_session v p (record s { state_sm = pdu_session_inactive })) (some pdu),
      )

  pub release-mm :
      (ue u : Ue) (p : ℕ) → init_pdu_session_release env ue p ≡ ok u → u.state_mm ≡ ue.state_mm
  unfolding init_pdu_session_release
  release-mm ue u p h =
      let (s, e, k) = >>=-eq-ok (deref_session ue p) _ h in
      released-mm ue u p s (is_active s.state_sm) k

  pub release_complete-mm :
      (ue u : Ue) (p : ℕ)
      → init_pdu_session_release_complete env ue p ≡ ok u
      → u.state_mm ≡ ue.state_mm
  unfolding init_pdu_session_release_complete
  release_complete-mm ue u p h =
      let (s, e, k) = >>=-eq-ok (deref_session ue p) _ h in
      ground (arith, send_secured-mm ue u (release_complete s.id) integrity_protected_and_ciphered)

  pub service_request-mm :
      (ue u : Ue) → init_service_request env ue ≡ ok u → u.state_mm ≡ ue.state_mm
  unfolding init_service_request
  service_request-mm ue u h =
      send_secured-mm ue u (service_request ue.security.guti (pdu_flag ue)) integrity_protected h
