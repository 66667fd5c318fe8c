-- ===== src/Gnb/Nas/Handover.antt =====
-- A handover by Xn, from the gNodeB that starts it to the one that takes the UE over.
use g_cn_testbed_k8s.Base.{
  ℕ, ◌+◌, ◌≡◌, refl, true, ◌∷◌, none, some, ok, arith, lookup, insert, lookup-insert,
}
use g_cn_testbed_k8s.Gnb.State.{
  Gnb, GnbUe, GnbAmf, UeMessage, empty_message, ready, path_switch_request, to_amf, to_channel,
}
use g_cn_testbed_k8s.Gnb.Ue.{copy_from_previous_context}
use g_cn_testbed_k8s.Gnb.Pools.{
  get_gnb_ue_by_pr_ue_id, new_gnb_ue, store_ue, new_ue, select_amf_by_active,
}
use g_cn_testbed_k8s.Gnb.Ngap.{Env, deref, put_ue, send_message_to_ue, send_encoded}
use g_cn_testbed_k8s.Gnb.Ngap.Mobility.{trigger_xn_handover, hand_over}
use g_cn_testbed_k8s.Gnb.Ngap.Switch.{send_path_switch_request}
use g_cn_testbed_k8s.Gnb.Nas.{process, gnb_listen, create_and_welcome, welcome}

-- What `TriggerXnHandover` hands to the new gNodeB.
abbrev pub handed_over : Gnb → GnbUe → UeMessage
handed_over g ue = record empty_message {
  gnb_rx = some g.next_ptr;
  gnb_tx = some (g.next_ptr + 1);
  pr_ue_id = ue.pr_ue_id;
  ue_context = some ue;
  is_handover = true;
}

-- The old gNodeB hands the UE that it has under the id to the new one, with all of its context, and
-- tells the UE, if it has a channel, the same pair of new channels.
pub xn-handed_over :
    (g : Gnb) (target pr p c : ℕ) (ue : GnbUe)
    → get_gnb_ue_by_pr_ue_id g pr ≡ some p
    → lookup p g.ue_heap ≡ some ue
    → ue.gnb_tx ≡ some c
    → trigger_xn_handover g target pr
      ≡ ok (record g {
        next_ptr = g.next_ptr + 2;
        sent =
            to_channel c (record empty_message {
              gnb_rx = some g.next_ptr;
              gnb_tx = some (g.next_ptr + 1);
              gnb_inbound_channel = some target;
            })
            ∷ to_channel target (handed_over g ue)
            ∷ g.sent;
      })
unfolding trigger_xn_handover hand_over send_message_to_ue deref
xn-handed_over g target pr p c ue e l t = ground arith

-- The UE as `NewGnBUe` makes it, and the gNodeB with it.
abbrev made : Gnb → Gnb → GnbUe → GnbAmf → GnbUe
made old g ue amf =
    record (new_ue g.id_ue_generator (some (old.next_ptr + 1)) (some old.next_ptr) ue.pr_ue_id
      none) { amf_id = amf.amf_id; sctp_connection = amf.tnla.sctp_conn }

abbrev with_made : Gnb → Gnb → GnbUe → GnbAmf → Gnb
with_made old g ue amf =
    let h = store_ue g (some (old.next_ptr + 1)) (some old.next_ptr) ue.pr_ue_id none in
    record h { ue_heap = insert g.next_ptr (made old g ue amf) h.ue_heap }

new_gnb_ue-made :
    (old g : Gnb) (ue : GnbUe) (amf : GnbAmf)
    → select_amf_by_active
        (store_ue g (some (old.next_ptr + 1)) (some old.next_ptr) ue.pr_ue_id none)
      ≡ some amf
    → new_gnb_ue g (some (old.next_ptr + 1)) (some old.next_ptr) ue.pr_ue_id none
      ≡ (with_made old g ue amf, some g.next_ptr)
unfolding new_gnb_ue
new_gnb_ue-made old g ue amf a = rw (a, new_gnb_ue) refl

abbrev taken_over : Gnb → Gnb → GnbUe → GnbAmf → GnbUe
taken_over old g ue amf =
    copy_from_previous_context (record (made old g ue amf) { state = ready }) ue

module _ (env : Env) where
  welcomed :
      (h : Gnb) (p : ℕ) (u old_ue : GnbUe) (m : UeMessage)
      → lookup p h.ue_heap ≡ some u
      → m.ue_context ≡ some old_ue
      → m.is_handover ≡ true
      → env.encodes
          (path_switch_request u.ran_ue_ngap_id old_ue.amf_ue_ngap_id old_ue.context.pdu_session)
        ≡ true
      → env.write u.sctp_connection
          (path_switch_request u.ran_ue_ngap_id old_ue.amf_ue_ngap_id old_ue.context.pdu_session)
        ≡ ok true
      → welcome env h p m
        ≡ ok (
            process
              (record (put_ue h p
                (copy_from_previous_context (record u { state = ready }) old_ue)) {
                  sent =
                      to_amf u.sctp_connection (
                        path_switch_request u.ran_ue_ngap_id old_ue.amf_ue_ngap_id
                          old_ue.context.pdu_session)
                      ∷ h.sent;
                })
              p)
  unfolding welcome deref send_path_switch_request send_encoded copy_from_previous_context
  welcomed h p u old_ue m l c t enc w = ground (
    arith,
    lookup-insert p p (copy_from_previous_context (record u { state = ready }) old_ue) h.ue_heap,
  )

  -- The new gNodeB, which does not know the UE and has an active AMF, gives it an id of its own, the
  -- AMF's id and the PDU sessions that it had before, and asks the AMF to switch the path of those
  -- sessions.
  pub xn-path_switch :
      (old g : Gnb) (ue : GnbUe) (amf : GnbAmf)
      → get_gnb_ue_by_pr_ue_id g ue.pr_ue_id ≡ none
      → select_amf_by_active
          (store_ue g (some (old.next_ptr + 1)) (some old.next_ptr) ue.pr_ue_id none)
        ≡ some amf
      → env.encodes (path_switch_request g.id_ue_generator ue.amf_ue_ngap_id ue.context.pdu_session)
        ≡ true
      → env.write amf.tnla.sctp_conn
          (path_switch_request g.id_ue_generator ue.amf_ue_ngap_id ue.context.pdu_session)
        ≡ ok true
      → (h : Gnb) × (u : GnbUe) × (gnb_listen env g (handed_over old ue)
          ≡ ok (process h g.next_ptr))
        × (lookup g.next_ptr h.ue_heap ≡ some u)
        × (u.ran_ue_ngap_id ≡ g.id_ue_generator)
        × (u.amf_ue_ngap_id ≡ ue.amf_ue_ngap_id)
        × (u.context ≡ ue.context)
        × (u.state ≡ ready)
        × (h.sent
            ≡ to_amf amf.tnla.sctp_conn
                (path_switch_request g.id_ue_generator ue.amf_ue_ngap_id ue.context.pdu_session)
              ∷ g.sent)
  unfolding gnb_listen create_and_welcome copy_from_previous_context store_ue
  xn-path_switch old g ue amf n a enc w =
      let h0 = with_made old g ue amf in
      let p = g.next_ptr in
      let h : Gnb = record (put_ue h0 p (taken_over old g ue amf)) {
        sent =
            to_amf amf.tnla.sctp_conn
              (path_switch_request g.id_ue_generator ue.amf_ue_ngap_id ue.context.pdu_session)
            ∷ g.sent;
      } in
      let l : lookup p h0.ue_heap ≡ some (made old g ue amf) = ground (
        arith,
        lookup-insert p p (made old g ue amf)
            (store_ue g (some (old.next_ptr + 1)) (some old.next_ptr) ue.pr_ue_id none).ue_heap,
      ) in
      (
        h,
        taken_over old g ue amf,
        ground (
          arith,
          new_gnb_ue-made old g ue amf a,
          welcomed h0 p (made old g ue amf) ue (handed_over old ue) l refl refl enc w,
        ),
        ground (arith, lookup-insert p p (taken_over old g ue amf) h0.ue_heap),
        refl,
        refl,
        refl,
        refl,
        refl,
      )
