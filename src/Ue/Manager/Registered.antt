-- ===== src/Ue/Manager/Registered.antt =====
-- How a UE comes to be registered, over all that its loop can do.
use g_cn_testbed_k8s.Base.{
  ℕ, ◌%◌, ◌≡◌, ◌⊎◌, ap, sym, ◌∙◌, Bool, true, false, List, Option, none, some, Result, ok,
  >>=-eq-ok, arith, Option-cases, Bool-cases, inl, inr, ◌==◌,
}
use g_cn_testbed_k8s.Gnb.State.{UeMessage, GnbPduSession}
use g_cn_testbed_k8s.Ue.State.{Ue, mm5g_registered, UePduSession, identity_response}
use g_cn_testbed_k8s.Ue.Encode.{NasEnv}
use g_cn_testbed_k8s.Ue.Message.{
  Message, no_message, authentication_reject, service_accept, other_message, with_cause,
  authentication_request, identity_request, security_mode_command, registration_accept,
  configuration_update_command, dl_nas_transport, RegistrationAccept,
}
use g_cn_testbed_k8s.Ue.Trigger.{init_identify_response}
use g_cn_testbed_k8s.Ue.Trigger.Keeps.{send_to_gnb-mm}
use g_cn_testbed_k8s.Ue.Handler.{handler_authentication_reject, handler_identity_request}
use g_cn_testbed_k8s.Ue.Manager.{
  first_of, end_loop, ue_mgr_handler, verify_paging, setup_gtp_interface, use_other_gnb,
  gnb_msg_handler, Event, from_gnb, from_manager, drx_tick, terminate_context, ue_step,
}
use g_cn_testbed_k8s.Ue.Dispatch.{Decoder, receive, handle, dispatch_nas}
use g_cn_testbed_k8s.Ue.Dispatch.Dropped.{verify-keys}
use g_cn_testbed_k8s.Ue.Handler.Keeps.{
  authentication-mm, command-mm, accepted, update-mm, transport-mm,
}
use g_cn_testbed_k8s.Ue.Manager.Keeps.{same-ue, manager-mm, paging-mm}

-- The messages that register a UE: a Registration Accept for 3GPP access, and a Service Accept.
pub data Registers : Message → Type 0 where
  by_registration :
      (m : RegistrationAccept)
      → m.header.message_type ≡ 66
      → m.result ≡ 1
      → Registers (registration_accept m)
  by_service : Registers service_accept

module _ (env : NasEnv) where
  module _ (decoder : Decoder) where
    -- A handler that leaves the UE registered has found it so, or handles a message that registers.
    handle-Registers :
        (ue u : Ue) (m : Message)
        → handle env decoder ue m ≡ ok u
        → u.state_mm ≡ mm5g_registered
        → (ue.state_mm ≡ mm5g_registered) ⊎ Registers m
    unfolding handle handler_authentication_reject handler_identity_request init_identify_response
    handle-Registers ue u no_message h r = absurd (ground arith)
    handle-Registers ue u authentication_reject h r = absurd (ground arith)
    handle-Registers ue u service_accept h r = inr by_service
    handle-Registers ue u other_message h r = inl (ground arith)
    handle-Registers ue u with_cause h r = inl (ground arith)
    handle-Registers ue u (authentication_request m) h r = inl (authentication-mm env ue u m h r)
    handle-Registers ue u (identity_request m) h r =
        inl (ground (arith, send_to_gnb-mm ue (some (env.plain ue.security identity_response))))
    handle-Registers ue u (security_mode_command m) h r = inl (sym (command-mm env ue u m h) ∙ r)
    handle-Registers ue u (registration_accept m) h r =
        let (t, v) = accepted env ue u m h in inr (by_registration m t v)
    handle-Registers ue u (configuration_update_command m) h r =
        inl (sym (update-mm env ue u m h) ∙ r)
    handle-Registers ue u (dl_nas_transport m) h r =
        inl (sym (transport-mm env ue u decoder.decode_gsm m h) ∙ r)

    -- A message that is received and that registers the UE.
    pub HandlesRegistration : Ue → List ℕ → Type 0
    HandlesRegistration ue nas =
        (v : Ue) × (m : Message) × (receive env decoder ue nas ≡ ok (v, some m)) × Registers m

    receive-mm :
        (ue v : Ue) (nas : List ℕ) (o : Option Message)
        → receive env decoder ue nas ≡ ok (v, o)
        → v.state_mm ≡ ue.state_mm
    unfolding receive
    receive-mm ue v nas o h = elim (Bool-cases (decoder.security_header_type nas % 16 == 0)) [
      | inl t ↦ ground arith
      | inr f ↦ ground (
        arith,
        verify-keys env decoder ue v (decoder.security_header_type nas % 16) nas o (ground arith),
      )
    ]

    dispatch-Registers :
        (ue u : Ue) (nas : List ℕ)
        → dispatch_nas env decoder ue (some nas) ≡ ok u
        → u.state_mm ≡ mm5g_registered
        → (ue.state_mm ≡ mm5g_registered) ⊎ HandlesRegistration ue nas
    unfolding dispatch_nas HandlesRegistration
    dispatch-Registers ue u nas h r =
        let ((v, o), e, k) = >>=-eq-ok (receive env decoder ue nas) _ h in go v o e k
      where
        go :
            (v : Ue) (o : Option Message)
            → receive env decoder ue nas ≡ ok (v, o)
            → elim o [ none ↦ ok v | some m ↦ handle env decoder v m ] ≡ ok u
            → (ue.state_mm ≡ mm5g_registered) ⊎ HandlesRegistration ue nas
        go v none e k = inl (ground (arith, receive-mm ue v nas none e))
        go v (some m) e k = elim (handle-Registers v u m k r) [
          | inl s ↦ inl (ground (arith, receive-mm ue v nas (some m) e))
          | inr s ↦ inr (v, m, e, s)
        ]

    nil_nas : (ue u : Ue) → dispatch_nas env decoder ue none ≡ ok u → ue.state_mm ≡ mm5g_registered
    unfolding dispatch_nas
    nil_nas ue u h = absurd (ground arith)

    -- What an event brings that registers a UE.
    pub data BringsRegistration (ue : Ue) : Event → Type 0 where
      by_nas :
          (m : UeMessage) (nas : List ℕ)
          → m.is_nas ≡ true
          → m.nas ≡ some nas
          → HandlesRegistration ue nas
          → BringsRegistration ue (from_gnb (some m))

    module _ (create_interface : UePduSession → UeMessage → Result UePduSession) where
      setup-mm :
          (ue u : Ue) (s : GnbPduSession) (m : UeMessage)
          → setup_gtp_interface env decoder create_interface ue s m ≡ ok u
          → u.state_mm ≡ ue.state_mm
      unfolding setup_gtp_interface
      setup-mm ue u s m h = ground arith

      other_gnb-mm :
          (ue u : Ue) (m : UeMessage)
          → use_other_gnb env decoder create_interface ue m ≡ ok u
          → u.state_mm ≡ ue.state_mm
      unfolding use_other_gnb
      other_gnb-mm ue u m h = ground arith

      message-Registers :
          (ue u : Ue) (m : UeMessage)
          → gnb_msg_handler env decoder create_interface m ue ≡ ok u
          → u.state_mm ≡ mm5g_registered
          → (ue.state_mm ≡ mm5g_registered) ⊎ BringsRegistration ue (from_gnb (some m))
      unfolding gnb_msg_handler
      message-Registers ue u m h r = elim (Bool-cases m.is_nas) [
        | inl t ↦ elim (Option-cases m.nas) [
          | inl n ↦ inl (nil_nas ue u (ground arith))
          | inr (nas, n) ↦ elim (dispatch-Registers ue u nas (ground arith) r) [
            | inl s ↦ inl s
            | inr s ↦ inr (by_nas m nas t n s)
          ]
        ]
        | inr f ↦
            inl (elim (Option-cases (first_of env decoder create_interface m.gnb_pdu_sessions)) [
              | inl n ↦ ground (arith, other_gnb-mm ue u m)
              | inr (s, n) ↦ sym (setup-mm ue u s m (ground arith)) ∙ r
            ])
      ]

      -- In whatever state a UE is, one turn of its loop leaves it registered only if it was so
      -- before, or if the gNodeB brings a NAS message that is received as a Registration Accept for
      -- 3GPP access or as a Service Accept. No request of the scenario and no paging does it.
      pub step-Registers :
          (ue u : Ue) (e : Event) (goes_on : Bool)
          → ue_step env decoder create_interface ue e ≡ ok (goes_on, u)
          → u.state_mm ≡ mm5g_registered
          → (ue.state_mm ≡ mm5g_registered) ⊎ BringsRegistration ue e
      unfolding ue_step terminate_context
      step-Registers ue u (from_gnb none) b h r = inl (ground arith)
      step-Registers ue u (from_gnb (some m)) b h r =
          let (v, e, k) = >>=-eq-ok (gnb_msg_handler env decoder create_interface m ue) _ h in
          message-Registers ue u m (ground arith) r
      step-Registers ue u (from_manager reply none) b h r = absurd (ground arith)
      step-Registers ue u (from_manager reply (some m)) b h r =
          let ((c, v), e, k) = >>=-eq-ok (ue_mgr_handler env m reply ue) _ h in
          inl (manager-mm env ue v m reply c e (ended c v b k r))
        where
          ended :
              (c : Bool) (v : Ue) (b : Bool)
              → ◌≡◌ {A = Result (Bool × Ue)}
                  (ok (end_loop env decoder create_interface (c, v)))
                  (ok (b, u))
              → u.state_mm ≡ mm5g_registered
              → v.state_mm ≡ mm5g_registered
          ended true v b k r = ground arith
          ended false v b k r = absurd (ground arith)
      step-Registers ue u (drx_tick reply paged) b h r =
          let (v, e, k) = >>=-eq-ok (verify_paging env paged reply ue) _ h in
          inl (paging-mm env ue v paged reply e (ap (λ x. x.state_mm) (same-ue true b v u k) ∙ r))
