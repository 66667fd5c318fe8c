-- ===== src/Gnb/Nas.antt =====
-- The gNodeB's side of a UE: gnb/nas/service/service.go, gnb/nas/dispatcher.go and
-- gnb/nas/handler/handler.go in PacketRusher/internal/control_test_engine.
pub mod Uplink
pub mod Handover
use g_cn_testbed_k8s.Base.{
  ℕ, Bool, true, false, List, ◌∷◌, Option, none, some, Result, ok, panic, blocked, ◌>>=◌,
  if◌then◌else◌,
}
use g_cn_testbed_k8s.Gnb.State.{
  Gnb, initialized, ongoing, ready, down, UeMessage, empty_message, initial_ue_message,
  uplink_nas_transport, to_channel, closed,
}
use g_cn_testbed_k8s.Gnb.Ue.{with_table, copy_from_previous_context}
use g_cn_testbed_k8s.Gnb.Pools.{get_gnb_ue, get_gnb_ue_by_pr_ue_id, new_gnb_ue, delete_gnb_ue}
use g_cn_testbed_k8s.Gnb.Pools.Paging.{get_paged_ues}
use g_cn_testbed_k8s.Gnb.Ngap.{
  Env, deref, put_ue, send_logged, send_message_to_ue, send_ue_context_release_request,
}
use g_cn_testbed_k8s.Gnb.Ngap.Switch.{send_path_switch_request}
use g_cn_testbed_k8s.Gnb.Ngap.HandoverRequest.{send_handover_notify}

-- What the loop of `gnbListen` does next for a UE: it goes on to the next message, or starts
-- `processingConn`.
pub data Listen : Type 0 where
  go_on : Gnb → Listen
  process : Gnb → ℕ → Listen

module _ (env : Env) where
  -- `HandlerUeInitialized`, `HandlerUeOngoing` and `HandlerUeReady`
  unfoldable pub handler_ue_initialized : Gnb → ℕ → Option (List ℕ) → Result Gnb
  handler_ue_initialized g p message = deref g p >>= λ ue.
      send_logged env (put_ue g p (record ue { state = ongoing })) ue.sctp_connection
        (initial_ue_message ue.ran_ue_ngap_id message)

  unfoldable pub handler_ue_ongoing : Gnb → ℕ → Option (List ℕ) → Result Gnb
  handler_ue_ongoing g p message = deref g p >>= λ ue.
      send_logged env g ue.sctp_connection (uplink_nas_transport ue.ran_ue_ngap_id message)

  unfoldable pub handler_ue_ready : Gnb → ℕ → Option (List ℕ) → Result Gnb
  handler_ue_ready g p message = deref g p >>= λ ue.
      send_logged env g ue.sctp_connection (uplink_nas_transport ue.ran_ue_ngap_id message)

  -- `Dispatch`; a UE that is down is not served.
  unfoldable pub dispatch_nas : Gnb → ℕ → Option (List ℕ) → Result Gnb
  unfolding handler_ue_initialized handler_ue_ongoing handler_ue_ready
  dispatch_nas g p message = deref g p >>= λ ue. elim ue.state [
    | initialized ↦ handler_ue_initialized g p message
    | ongoing ↦ handler_ue_ongoing g p message
    | ready ↦ handler_ue_ready g p message
    | down ↦ ok g
  ]

  -- A nil channel is never sent on.
  abbrev pub put_on : Gnb → Option ℕ → UeMessage → Result Gnb
  put_on g none m = blocked
  put_on g (some c) m = ok (record g { sent = to_channel c m ∷ g.sent })

  abbrev pub close_channel : Gnb → Option ℕ → Result Gnb
  close_channel g none = panic
  close_channel g (some c) = ok (record g { sent = closed c ∷ g.sent })

  -- A request for the paged UEs.
  unfoldable pub answer_fetch : Gnb → UeMessage → Result Gnb
  answer_fetch g m = elim m.gnb_tx [
    | none ↦ ok g
    | some c ↦
        if g.paged_locked
        then blocked
        else ok (record g {
          sent =
              closed c
              ∷ to_channel c (record empty_message { paged_ues = get_paged_ues g })
              ∷ g.sent;
        })
  ]

  -- A UE that an NGAP handover has brought before.
  unfoldable pub finish_handover : Gnb → ℕ → UeMessage → Result Listen
  finish_handover g p m = do
    ue ← deref g p
    g1 ←
        send_message_to_ue (put_ue g p (record ue { gnb_rx = m.gnb_rx; gnb_tx = m.gnb_tx })) p
          (record empty_message { gnb_pdu_sessions = ue.context.pdu_session; gnb_ip = g.n3_ip })
    ue' ← deref g1 p
    g2 ← send_handover_notify env (put_ue g1 p (record ue' { state = ready })) p
    ok (process g2 p)

  -- A UE that has just been made: it comes by Xn from another gNodeB, or is new.
  unfoldable pub welcome : Gnb → ℕ → UeMessage → Result Listen
  welcome g p m = deref g p >>= λ ue.
      let usual = (do
        g1 ← put_on g m.gnb_tx (record empty_message { mcc = g.mcc; mnc = g.mnc })
        ok (process (put_ue g1 p (with_table ue m.gnb_pdu_sessions)) p)) in
      elim m.ue_context [
        | none ↦ usual
        | some old ↦
            if m.is_handover
            then (send_path_switch_request env
                  (put_ue g p (copy_from_previous_context (record ue { state = ready }) old)) p
                >>= λ g1. ok (process g1 p))
            else usual
      ]

  unfoldable pub create_and_welcome : Gnb → UeMessage → Result Listen
  unfolding welcome
  create_and_welcome g m =
      let (g', made) = new_gnb_ue g m.gnb_tx m.gnb_rx m.pr_ue_id m.tmsi in
      elim made [
        | none ↦ close_channel g' m.gnb_tx >>= λ g2. ok (go_on g2)
        | some p ↦ welcome g' p m
      ]

  -- The body of the loop of `gnbListen`.
  unfoldable pub gnb_listen : Gnb → UeMessage → Result Listen
  unfolding answer_fetch finish_handover create_and_welcome
  gnb_listen g m =
      if m.fetch_paged_ues
      then (answer_fetch g m >>= λ g'. ok (go_on g'))
      else elim (get_gnb_ue_by_pr_ue_id g m.pr_ue_id) [
        | none ↦ create_and_welcome g m
        | some p ↦ if m.is_handover then finish_handover g p m else create_and_welcome g m
      ]

  set_state_down : Gnb → ℕ → Result Gnb
  set_state_down g p = deref g p >>= λ ue. ok (put_ue g p (record ue { state = down }))

  -- The UE says that it closes the connection. `context` is the UE in the pool under the id.
  unfoldable pub clean_up : Gnb → ℕ → ℕ → Result Gnb
  unfolding set_state_down
  clean_up g p context = do
    g1 ← set_state_down g context
    ue ← deref g1 context
    elim ue.new_gnb [ none ↦ delete_gnb_ue g1 p | some _ ↦ ok g1 ]

  -- The body of the loop of `processingConn`, with what the channel gives, nothing where it is
  -- closed: whether the loop goes on, and the gNodeB.
  unfoldable pub processing_conn : Gnb → ℕ → Option UeMessage → Result (Bool × Gnb)
  unfolding clean_up set_state_down dispatch_nas
  processing_conn g p received = deref g p >>= λ ue. elim received [
    | none ↦ elim (get_gnb_ue g ue.ran_ue_ngap_id) [
      | none ↦ ok (false, g)
      | some context ↦ set_state_down g context >>= λ g'. ok (false, g')
    ]
    | some m ↦ elim (get_gnb_ue g ue.ran_ue_ngap_id) [
      | none ↦ ok (false, g)
      | some context ↦
          let idle = send_ue_context_release_request env g p in
          (if m.connection_closed
            then clean_up g p context
            else if m.is_nas
            then dispatch_nas g p m.nas
            else if m.idle
            then idle
            else ok g)
          >>= λ g'. ok (true, g')
    ]
  ]
