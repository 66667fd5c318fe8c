-- ===== src/Ue/Manager/Keeps.antt =====
-- What the requests of a scenario and paging leave of the 5GMM state of a UE.
use g_cn_testbed_k8s.Base.{
  ℕ, zero, suc, ◌+◌, ◌≡◌, ap, sym, ◌∙◌, Bool, true, false, List, ◌∷◌, Option, none, some, Text,
  Result, ok, ◌>>=◌, >>=-eq-ok, arith, if◌then◌else◌,
}
use g_cn_testbed_k8s.Gnb.State.{PagedUe, empty_message}
use g_cn_testbed_k8s.Ue.State.{Ue, mm5g_registered, mm5g_idle, set_state_mm, to_gnb}
use g_cn_testbed_k8s.Ue.Sessions.{get_pdu_session}
use g_cn_testbed_k8s.Ue.Auth.{set_amf_mcc_and_mnc}
use g_cn_testbed_k8s.Ue.Encode.{NasEnv}
use g_cn_testbed_k8s.Ue.Trigger.{
  init_registration, init_deregistration, init_pdu_session_request, init_pdu_session_release,
  init_service_request, switch_to_idle,
}
use g_cn_testbed_k8s.Ue.Trigger.Keeps.{
  send_to_gnb_msg-mm, registration-mm, service_request-mm, deregistration-mm, request-mm,
  release-mm,
}
use g_cn_testbed_k8s.Ue.Manager.{
  UeTesterMessage, registration, deregistration, new_pdu_session, idle, service_request, terminate,
  kill, destroy_pdu_session, other_request, is_registered, is_idle, init_conn, stop_drx,
  release_all, request_service, destroy_session, terminate_ue, ue_mgr_handler, is_paged,
  verify_paging,
}

pub same-ue : (b c : Bool) (v u : Ue) → ◌≡◌ {A = Result (Bool × Ue)} (ok (b, v)) (ok (c, u)) → v ≡ u
same-ue b c v u h = ground arith

module _ (env : NasEnv) where
  release_all-mm :
      (ue u : Ue) (n id : ℕ) → release_all env ue n id ≡ ok u → u.state_mm ≡ ue.state_mm
  unfolding release_all
  release_all-mm ue u zero id h = ground arith
  release_all-mm ue u (suc n) id h =
      let (o, e, k) = >>=-eq-ok (get_pdu_session ue id) _ h in
      released o k (λ v. release_all-mm v u n (id + 1)) (release_all-mm ue u n (id + 1))
    where
      released :
          (o : Option ℕ)
          → elim o [
            | none ↦ release_all env ue n (id + 1)
            | some p ↦ init_pdu_session_release env ue p >>= λ v. release_all env v n (id + 1)
          ]
            ≡ ok u
          → ((v : Ue) → release_all env v n (id + 1) ≡ ok u → u.state_mm ≡ v.state_mm)
          → (release_all env ue n (id + 1) ≡ ok u → u.state_mm ≡ ue.state_mm)
          → u.state_mm ≡ ue.state_mm
      released none k rest same = same k
      released (some p) k rest same =
          let (v, e, l) = >>=-eq-ok (init_pdu_session_release env ue p) _ k in
          rest v l ∙ release-mm env ue v p e

  terminate-mm :
      (ue u : Ue)
      → terminate_ue env ue ≡ ok u
      → u.state_mm ≡ mm5g_registered
      → ue.state_mm ≡ mm5g_registered
  unfolding terminate_ue
  terminate-mm ue u h r = terminated (is_registered ue.state_mm) h
    where
      terminated :
          (test : Bool)
          → (if test then (release_all env ue 16 1 >>= λ u. init_deregistration env u) else ok ue)
            ≡ ok u
          → ue.state_mm ≡ mm5g_registered
      terminated false k = ground arith
      terminated true k =
          let (v, e, l) = >>=-eq-ok (release_all env ue 16 1) _ k in
          absurd (ground (arith, deregistration-mm env v u l))

  connect-mm :
      (ue : Ue) (reply : Text × Text) → (init_conn (stop_drx ue) reply).state_mm ≡ ue.state_mm
  unfolding init_conn stop_drx set_amf_mcc_and_mnc
  connect-mm ue (mcc, mnc) = ground arith

  service-mm :
      (ue u : Ue) (reply : Text × Text)
      → request_service env ue reply ≡ ok u
      → u.state_mm ≡ mm5g_registered
      → ue.state_mm ≡ mm5g_registered
  unfolding request_service
  service-mm ue u reply h r = requested (is_idle ue.state_mm) ue.security.guti h
    where
      requested :
          (test : Bool) (guti : Option (ℕ × List ℕ))
          → (if test
              then elim guti [
                | none ↦ init_registration env (init_conn (stop_drx ue) reply)
                | some _ ↦ init_service_request env (init_conn (stop_drx ue) reply)
              ]
              else ok ue)
            ≡ ok u
          → ue.state_mm ≡ mm5g_registered
      requested false guti k = ground arith
      requested true none k =
          absurd (ground (arith, registration-mm env (init_conn (stop_drx ue) reply) u k))
      requested true (some g) k = sym (connect-mm ue reply) ∙ sym (service_request-mm env _ u k) ∙ r

  destroy-mm : (ue u : Ue) (id : ℕ) → destroy_session env ue id ≡ ok u → u.state_mm ≡ ue.state_mm
  unfolding destroy_session
  destroy-mm ue u id h = let (o, e, k) = >>=-eq-ok (get_pdu_session ue id) _ h in destroyed o k
    where
      destroyed :
          (o : Option ℕ)
          → elim o [ none ↦ ok ue | some p ↦ init_pdu_session_release env ue p ] ≡ ok u
          → u.state_mm ≡ ue.state_mm
      destroyed none k = ground arith
      destroyed (some p) k = release-mm env ue u p k

  pub manager-mm :
      (ue u : Ue) (m : UeTesterMessage) (reply : Text × Text) (goes_on : Bool)
      → ue_mgr_handler env m reply ue ≡ ok (goes_on, u)
      → u.state_mm ≡ mm5g_registered
      → ue.state_mm ≡ mm5g_registered
  unfolding ue_mgr_handler switch_to_idle
  manager-mm ue u registration reply b h r =
      let (v, e, k) = >>=-eq-ok (init_registration env ue) _ h in
      absurd (ground (arith, registration-mm env ue v e))
  manager-mm ue u deregistration reply b h r =
      let (v, e, k) = >>=-eq-ok (init_deregistration env ue) _ h in
      absurd (ground (arith, deregistration-mm env ue v e))
  manager-mm ue u new_pdu_session reply b h r =
      let (v, e, k) = >>=-eq-ok (init_pdu_session_request env ue) _ h in
      ground (arith, request-mm env ue v e)
  manager-mm ue u (destroy_pdu_session id) reply b h r =
      let (v, e, k) = >>=-eq-ok (destroy_session env ue id) _ h in
      ground (arith, destroy-mm ue v id e)
  manager-mm ue u idle reply b h r = absurd (
      ground (
        arith,
        send_to_gnb_msg-mm (set_state_mm ue mm5g_idle) (record empty_message { idle = true }),
      ))
  manager-mm ue u service_request reply b h r =
      let (v, e, k) = >>=-eq-ok (request_service env ue reply) _ h in
      service-mm ue v reply e (ground arith)
  manager-mm ue u terminate reply b h r =
      let (v, e, k) = >>=-eq-ok (terminate_ue env ue) _ h in
      terminate-mm ue v e (ap (λ x. x.state_mm) (same-ue false b v u k) ∙ r)
  manager-mm ue u kill reply b h r = ground arith
  manager-mm ue u other_request reply b h r = ground arith

  paged-mm :
      (ue u : Ue) (found : Bool) (reply : Text × Text)
      → (if found then (ue_mgr_handler env service_request reply ue >>= λ r. ok r.1) else ok ue)
        ≡ ok u
      → u.state_mm ≡ mm5g_registered
      → ue.state_mm ≡ mm5g_registered
  paged-mm ue u false reply h r = ground arith
  paged-mm ue u true reply h r =
      let ((c, v), e, k) = >>=-eq-ok (ue_mgr_handler env service_request reply ue) _ h in
      manager-mm ue v service_request reply c e (ground arith)

  pub paging-mm :
      (ue u : Ue) (paged : List PagedUe) (reply : Text × Text)
      → verify_paging env paged reply ue ≡ ok u
      → u.state_mm ≡ mm5g_registered
      → ue.state_mm ≡ mm5g_registered
  unfolding verify_paging
  paging-mm ue u paged reply h r =
      let asked = record ue {
        next_ptr = ue.next_ptr + 1;
        sent =
            to_gnb ue.gnb_inbound_channel
              (record empty_message { gnb_tx = some ue.next_ptr; fetch_paged_ues = true })
            ∷ ue.sent;
      } in
      let (found, e, k) = >>=-eq-ok (is_paged env asked paged) _ h in
      paged-mm asked u found reply k r
