-- ===== src/Gnb/Ngap/Mobility.antt =====
-- `HandlerHandoverCommand` of PacketRusher/internal/control_test_engine/gnb/ngap/handler.go
-- and `TriggerNgapHandover` and `TriggerXnHandover` of gnb/ngap/trigger/trigger.go. A gNodeB that a
-- UE is handed to is known by its inbound channel; a channel that is made gets the next two pointers
-- for its number.
-- inbound channel; a channel that is made gets the next two pointers for its number.
use g_cn_testbed_k8s.Base.{
  ℕ, ◌+◌, true, List, [], ◌∷◌, Option, none, some, Result, ok, fatal, ◌>>=◌,
}
use g_cn_testbed_k8s.Gnb.State.{Gnb, GnbUe, empty_message, handover_required, to_channel}
use g_cn_testbed_k8s.Gnb.Pools.{get_gnb_ue_by_pr_ue_id}
use g_cn_testbed_k8s.Gnb.Ngap.{
  Ie, amf_ue_ngap_id, ran_ue_ngap_id, Env, or_fatal, deref, put_ue, get_ue_from_context,
  send_message_to_ue, send_encoded,
}

module _ (env : Env) where
  -- `TriggerNgapHandover`
  unfoldable pub trigger_ngap_handover : Gnb → ℕ → ℕ → Result Gnb
  unfolding deref send_encoded
  trigger_ngap_handover old_gnb new_gnb pr_ue_id = do
    p ← or_fatal (get_gnb_ue_by_pr_ue_id old_gnb pr_ue_id)
    ue ← deref old_gnb p
    send_encoded env (put_ue old_gnb p (record ue { new_gnb = some new_gnb })) ue.sctp_connection
        (handover_required new_gnb ue.ran_ue_ngap_id ue.amf_ue_ngap_id)

-- The two new channels, handed to the new gNodeB and then to the UE.
unfoldable pub hand_over : Gnb → ℕ → ℕ → ℕ → Option GnbUe → Result Gnb
hand_over g p new_gnb pr_ue_id ue_context =
    send_message_to_ue
      (record g {
        next_ptr = g.next_ptr + 2;
        sent =
            to_channel new_gnb (record empty_message {
              gnb_rx = some g.next_ptr;
              gnb_tx = some (g.next_ptr + 1);
              pr_ue_id = pr_ue_id;
              ue_context = ue_context;
              is_handover = true;
            })
            ∷ g.sent;
      })
      p
      (record empty_message {
        gnb_rx = some g.next_ptr;
        gnb_tx = some (g.next_ptr + 1);
        gnb_inbound_channel = some new_gnb;
      })

-- `TriggerXnHandover`
unfoldable pub trigger_xn_handover : Gnb → ℕ → ℕ → Result Gnb
unfolding deref hand_over
trigger_xn_handover old_gnb new_gnb pr_ue_id = do
  p ← or_fatal (get_gnb_ue_by_pr_ue_id old_gnb pr_ue_id)
  ue ← deref old_gnb p
  hand_over old_gnb p new_gnb ue.pr_ue_id (some ue)

unfoldable pub scan_ids : List Ie → ℕ × ℕ → Result (ℕ × ℕ)
scan_ids [] s = ok s
scan_ids (amf_ue_ngap_id none ∷ l) s = fatal
scan_ids (amf_ue_ngap_id (some v) ∷ l) (r, a) = scan_ids l (r, v)
scan_ids (ran_ue_ngap_id none ∷ l) s = fatal
scan_ids (ran_ue_ngap_id (some v) ∷ l) (r, a) = scan_ids l (v, a)
scan_ids (_ ∷ l) s = scan_ids l s

unfoldable pub handler_handover_command : Gnb → List Ie → Result Gnb
unfolding scan_ids deref hand_over
handler_handover_command g ies = do
  (ran_ue_id, amf_ue_id) ← scan_ids ies (0, 0)
  (found, g') ← get_ue_from_context g ran_ue_id amf_ue_id
  elim found [
    | none ↦ ok g'
    | some p ↦ deref g' p >>= λ ue. elim ue.new_gnb [
      | none ↦ ok g'
      | some new_gnb ↦ hand_over g' p new_gnb ue.pr_ue_id none
    ]
  ]
