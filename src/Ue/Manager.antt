-- ===== src/Ue/Manager.antt =====
-- The UE's main loop: `gnbMsgHandler`, `verifyPaging`, `ueMgrHandler` and the loop of `NewUE` in
-- ue/ue.go, `InitConn` of ue/nas/service/service.go, `Terminate` of ue/context/context.go and the
-- beginning of `SetupGtpInterface` of ue/gtp/service/service.go, all in
-- PacketRusher/internal/control_test_engine.
pub mod Registered
pub mod Keeps
use g_cn_testbed_k8s.Base.{
  take, ℕ, zero, suc, ◌+◌, ◌-◌, ◌%◌, Bool, true, false, ◌&&◌, List, [], ◌∷◌, Option, none, some,
  Text, Result, ok, fatal, panic, blocked, ◌>>=◌, or_panic, get_elem?, ◌==◌, if◌then◌else◌, text_eq,
  length, ltb,
}
use g_cn_testbed_k8s.Gnb.State.{UeMessage, empty_message, GnbPduSession, PagedUe}
use g_cn_testbed_k8s.Ue.State.{
  Ue, UePduSession, StateMm, mm5g_idle, mm5g_registered, TunnelMode, tunnel_disabled, Sent, to_gnb,
  closed, scenario_closed, set_state_mm, set_state_mm_null, put_session, deref_session,
}
use g_cn_testbed_k8s.Ue.Sessions.{get_pdu_session}
use g_cn_testbed_k8s.Ue.Auth.{set_amf_mcc_and_mnc}
use g_cn_testbed_k8s.Ue.Encode.{NasEnv}
use g_cn_testbed_k8s.Ue.Trigger.{
  init_registration, init_deregistration, init_pdu_session_request, init_pdu_session_release,
  init_service_request, switch_to_idle,
}
use g_cn_testbed_k8s.Ue.Dispatch.{Decoder, dispatch_nas}

-- The requests of a scenario; the other types are not looked at.
pub data UeTesterMessage : Type 0 where
  registration deregistration new_pdu_session idle service_request terminate kill : UeTesterMessage
  destroy_pdu_session : (param : ℕ) → UeTesterMessage
  other_request : UeTesterMessage

abbrev pub is_idle : StateMm → Bool
is_idle mm5g_idle = true
is_idle _ = false

abbrev pub is_registered : StateMm → Bool
is_registered mm5g_registered = true
is_registered _ = false

-- A new channel pair, offered to the gNodeB, which answers with its PLMN, or with nothing if it
-- closes the channel.
unfoldable pub init_conn : Ue → Text × Text → Ue
init_conn ue (mcc, mnc) =
    set_amf_mcc_and_mnc
      (record ue {
        gnb_rx = some ue.next_ptr;
        gnb_tx = some (ue.next_ptr + 1);
        next_ptr = ue.next_ptr + 2;
        sent =
            to_gnb ue.gnb_inbound_channel (record empty_message {
              gnb_tx = some (ue.next_ptr + 1);
              gnb_rx = some ue.next_ptr;
              pr_ue_id = ue.pr_ue_id;
              tmsi = elim ue.security.guti [ none ↦ none | some g ↦ some g.0 ];
            })
            ∷ ue.sent;
      })
      mcc mnc

-- `StopDRX`
unfoldable pub stop_drx : Ue → Ue
stop_drx ue = elim ue.drx [ none ↦ ue | some _ ↦ record ue { drx = some false } ]

-- What the loop of a UE selects: a message on a channel, nothing where it is closed, or a tick.
pub data Event : Type 0 where
  from_gnb : Option UeMessage → Event
  from_manager : (reply : Text × Text) → Option UeTesterMessage → Event
  drx_tick : (reply : Text × Text) → List PagedUe → Event

module _ (env : NasEnv) where
  -- The sessions from `id` on, with the ids that are left, are released one after the other.
  unfoldable pub release_all : Ue → ℕ → ℕ → Result Ue
  release_all ue zero id = ok ue
  release_all ue (suc n) id = get_pdu_session ue id >>= λ found. elim found [
    | none ↦ release_all ue n (id + 1)
    | some p ↦ init_pdu_session_release env ue p >>= λ u. release_all u n (id + 1)
  ]

  -- A service request goes out if the UE is idle; without a GUTI it registers again.
  unfoldable pub request_service : Ue → Text × Text → Result Ue
  unfolding init_conn stop_drx
  request_service ue reply =
      let u = init_conn (stop_drx ue) reply in
      if is_idle ue.state_mm
      then elim ue.security.guti [
        | none ↦ init_registration env u
        | some _ ↦ init_service_request env u
      ]
      else ok ue

  unfoldable pub destroy_session : Ue → ℕ → Result Ue
  destroy_session ue id = get_pdu_session ue id >>= λ found. elim found [
    | none ↦ ok ue
    | some p ↦ init_pdu_session_release env ue p
  ]

  unfoldable pub terminate_ue : Ue → Result Ue
  unfolding release_all
  terminate_ue ue =
      if is_registered ue.state_mm
      then (release_all ue 16 1 >>= λ u. init_deregistration env u)
      else ok ue

  -- `ueMgrHandler`: whether the loop goes on, and the UE. `reply` is what the gNodeB answers if a
  -- connection is made.
  unfoldable pub ue_mgr_handler : UeTesterMessage → Text × Text → Ue → Result (Bool × Ue)
  unfolding request_service destroy_session terminate_ue
  ue_mgr_handler registration reply ue = init_registration env ue >>= λ u. ok (true, u)
  ue_mgr_handler deregistration reply ue = init_deregistration env ue >>= λ u. ok (true, u)
  ue_mgr_handler new_pdu_session reply ue = init_pdu_session_request env ue >>= λ u. ok (true, u)
  ue_mgr_handler (destroy_pdu_session id) reply ue = destroy_session ue id >>= λ u. ok (true, u)
  ue_mgr_handler idle reply ue =
      ok (true, record (switch_to_idle (set_state_mm ue mm5g_idle)) { drx = some true })
  ue_mgr_handler service_request reply ue = request_service ue reply >>= λ u. ok (true, u)
  ue_mgr_handler terminate reply ue = terminate_ue ue >>= λ u. ok (false, u)
  ue_mgr_handler kill reply ue = ok (false, ue)
  ue_mgr_handler other_request reply ue = ok (true, ue)

  -- Whether the UE is among those that are paged. A TMSI of under 4 octets panics.
  unfoldable pub is_paged : Ue → List PagedUe → Result Bool
  is_paged ue [] = ok false
  is_paged ue (p ∷ l) = elim ue.security.guti [
    | none ↦ is_paged ue l
    | some g ↦ elim p.five_g_s_tmsi [
      | none ↦ is_paged ue l
      | some _ ↦
          if ltb (length p.tmsi) 4
          then panic
          else if text_eq (take 4 p.tmsi) g.1
          then ok true
          else is_paged ue l
    ]
  ]

  -- `verifyPaging`, with the paged UEs that the gNodeB answers.
  unfoldable pub verify_paging : List PagedUe → Text × Text → Ue → Result Ue
  unfolding is_paged ue_mgr_handler
  verify_paging paged reply ue =
      let asked = record ue {
        next_ptr = ue.next_ptr + 1;
        sent =
            to_gnb ue.gnb_inbound_channel
              (record empty_message { gnb_tx = some ue.next_ptr; fetch_paged_ues = true })
            ∷ ue.sent;
      } in
      is_paged asked paged >>= λ found.
      let answer = ue_mgr_handler service_request reply asked in
      if found then (answer >>= λ r. ok r.1) else ok asked

  module _ (decoder : Decoder)
      (create_interface : UePduSession → UeMessage → Result UePduSession) where
    -- `SetupGtpInterface`; `create_interface` makes the kernel's interface.
    unfoldable pub setup_gtp_interface : Ue → GnbPduSession → UeMessage → Result Ue
    setup_gtp_interface ue s m = get_pdu_session ue (s.pdu_session_id % 256) >>= λ found.
        elim found [
          | none ↦ ok ue
          | some p ↦ deref_session ue p >>= λ old.
              let u = put_session ue p (record old { gnb_pdu_session = some s }) in
              elim ue.tunnel_mode [
                | tunnel_disabled ↦ ok u
                | _ ↦
                    if old.id == 1
                    then (create_interface (record old { gnb_pdu_session = some s }) m >>= λ made.
                        ok (put_session u p made))
                    else ok u
              ]
        ]

    abbrev pub first_of : List (Option GnbPduSession) → Option GnbPduSession
    first_of [] = none
    first_of (s ∷ l) = s

    -- The gNodeB tells the UE to use another gNodeB: the old channel is closed.
    unfoldable pub use_other_gnb : Ue → UeMessage → Result Ue
    use_other_gnb ue m = elim ue.gnb_rx [
      | none ↦ blocked
      | some previous ↦ or_panic m.gnb_inbound_channel >>= λ inbound. ok (record ue {
        gnb_inbound_channel = inbound;
        gnb_rx = m.gnb_rx;
        gnb_tx = m.gnb_tx;
        sent =
            closed previous
            ∷ to_gnb previous (record empty_message { connection_closed = true })
            ∷ ue.sent;
      })
    ]

    abbrev is_some {ℓ} : {A : Type ℓ} → Option A → Bool
    is_some none = false
    is_some (some a) = true

    -- `gnbMsgHandler`
    unfoldable pub gnb_msg_handler : UeMessage → Ue → Result Ue
    unfolding setup_gtp_interface use_other_gnb
    gnb_msg_handler m ue =
        if m.is_nas then dispatch_nas env decoder ue m.nas else elim (first_of m.gnb_pdu_sessions) [
          | some s ↦ setup_gtp_interface ue s m
          | none ↦
              if is_some m.gnb_rx && (is_some m.gnb_tx && is_some m.gnb_inbound_channel)
              then use_other_gnb ue m
              else ok ue
        ]

    -- `Terminate`, less the kernel's interfaces.
    unfoldable pub terminate_context : Ue → Ue
    terminate_context ue =
        let u = set_state_mm_null ue in
        record u {
          gnb_rx = none;
          drx = elim u.drx [ none ↦ none | some _ ↦ some false ];
          sent = scenario_closed ∷ elim u.gnb_rx [ none ↦ u.sent | some c ↦ closed c ∷ u.sent ];
        }

    abbrev pub end_loop : Bool × Ue → Bool × Ue
    end_loop (true, ue) = (true, ue)
    end_loop (false, ue) = (false, terminate_context ue)

    -- The body of the loop of `NewUE`, with what follows the loop when it ends.
    unfoldable pub ue_step : Ue → Event → Result (Bool × Ue)
    unfolding gnb_msg_handler
    ue_step ue (from_gnb none) = ok (true, record ue { gnb_tx = none })
    ue_step ue (from_gnb (some m)) = gnb_msg_handler m ue >>= λ u. ok (true, u)
    ue_step ue (from_manager reply none) = ok (end_loop (false, ue))
    ue_step ue (from_manager reply (some m)) = ue_mgr_handler m reply ue >>= λ r. ok (end_loop r)
    ue_step ue (drx_tick reply paged) = verify_paging paged reply ue >>= λ u. ok (true, u)
