-- ===== src/Gnb/Ngap/Resource/Created.antt =====
-- What a session of a PDU Session Resource Setup Request must be for the handler to get through it.
use g_cn_testbed_k8s.Base.{
  ℕ, ◌<◌, ◌≡◌, ap, sym, ◌∙◌, true, List, Option, some, Text, Result, ok, >>=-eq-ok, or_panic, arith,
  lookup, insert, lookup-insert, inl, inr, Bool-cases, ltb, ◌==◌,
}
use g_cn_testbed_k8s.Gnb.State.{Gnb, GnbUe, GnbPduSession, UeMessage, empty_message}
use g_cn_testbed_k8s.Gnb.Ue.{
  Answer, answer, refused, create_pdu_session, is_wanted_nssai, get_selected_nssai,
}
use g_cn_testbed_k8s.Gnb.Ue.Table.{
  IsTable, create_out_of_range, create-IsTable, selected_nssai_last,
}
use g_cn_testbed_k8s.Gnb.Pools.{get_ue_teid, get_gnb_ue_by_teid}
use g_cn_testbed_k8s.Gnb.Ngap.{
  Env, SetupItem, deref, put_ue, send_to_ue, send_message_to_ue, or_fatal,
}
use g_cn_testbed_k8s.Gnb.Ngap.Setup.{hex_or_not_informed, create_with_teid}
use g_cn_testbed_k8s.Gnb.Ngap.Resource.{
  setup_resource_item, decoded_transfer, dotted, or_nil_panic, first_session,
}

create-wanted :
    (ue u : GnbUe) (s t : GnbPduSession)
    → create_pdu_session ue s ≡ ok (u, answer t)
    → (is_wanted_nssai ue s.sst s.sd ≡ true) × (t ≡ s)
unfolding create_pdu_session
create-wanted ue u s t h = ground arith

message-teids :
    (g h : Gnb) (p : ℕ) (m : UeMessage)
    → send_message_to_ue g p m ≡ ok h
    → h.teid_pool ≡ g.teid_pool
unfolding send_message_to_ue deref
message-teids g h p m e = ground arith

nas-teids :
    (g h : Gnb) (p : ℕ) (nas : Option (List ℕ))
    → send_to_ue g p nas ≡ ok h
    → h.teid_pool ≡ g.teid_pool
unfolding send_to_ue
nas-teids g h p nas e = message-teids g h p _ e

with_teid-created :
    (g h : Gnb) (p : ℕ) (ue : GnbUe) (s t : GnbPduSession)
    → lookup p g.ue_heap ≡ some ue
    → create_with_teid g p s ≡ ok (h, answer t)
    → (u : GnbUe) × (create_pdu_session ue (record s { downlink_teid = g.teid_generator })
        ≡ ok (u, answer t))
      × (h ≡ put_ue (get_ue_teid g p).1 p u)
unfolding create_with_teid get_ue_teid deref
with_teid-created g h p ue s t l e =
    let (v, d, k) = >>=-eq-ok (or_panic (lookup p g.ue_heap)) _ e in
    let same : v ≡ ue = ground arith in
    let ((u, a), c, k2) =
      >>=-eq-ok (create_pdu_session v (record s { downlink_teid = g.teid_generator })) _ k in
    (u, ground arith, ground arith)

id-in_table :
    (ue u : GnbUe) (s t : GnbPduSession) (a b : Text)
    → IsTable ue
    → create_pdu_session ue s ≡ ok (u, answer t)
    → get_selected_nssai u t.pdu_session_id ≡ ok (a, b)
    → (0 < s.pdu_session_id) × (s.pdu_session_id < 16)
id-in_table ue u s t a b v c h =
    let (w, same) = create-wanted ue u s t c in
    (
      elim (Bool-cases (s.pdu_session_id == 0)) [
        | inl z ↦ absurd (ground (arith, create_out_of_range ue s v (inl (ground arith))))
        | inr n ↦ ground arith
      ],
      elim (Bool-cases (ltb s.pdu_session_id 16)) [
        | inl l ↦ ground arith
        | inr n ↦ elim (Bool-cases (s.pdu_session_id == 16)) [
          | inl e ↦
              let last : t.pdu_session_id ≡ 16 = ground arith in
              absurd (
                ground (
                  arith,
                  selected_nssai_last u (create-IsTable ue u s t c v),
                  ap (get_selected_nssai u) last,
                ))
          | inr f ↦ absurd (ground (arith, create_out_of_range ue s v (inr (ground arith))))
        ]
      ],
    )

-- The end of the proof: what the steps have given, put together.
finish :
    (g h : Gnb) (p : ℕ) (ue : GnbUe) (r s : GnbPduSession) (nas : List ℕ)
    (created : Answer GnbPduSession) (g1 g2 g3 : Gnb) (s1 : GnbPduSession) (u1 : GnbUe)
    (n : Text × Text) (m : UeMessage)
    → lookup p g.ue_heap ≡ some ue
    → IsTable ue
    → create_with_teid g p r ≡ ok (g1, created)
    → or_nil_panic created ≡ ok s1
    → deref g1 p ≡ ok u1
    → get_selected_nssai u1 s1.pdu_session_id ≡ ok n
    → send_to_ue g1 p (some nas) ≡ ok g2
    → send_message_to_ue g2 p m ≡ ok g3
    → ◌≡◌ {A = Result (GnbPduSession × Gnb)} (ok (s1, g3)) (ok (s, h))
    → (is_wanted_nssai ue s.sst s.sd ≡ true)
      × (s.pdu_session_id ≡ r.pdu_session_id)
      × (0 < s.pdu_session_id)
      × (s.pdu_session_id < 16)
      × (lookup s.downlink_teid h.teid_pool ≡ some p)
unfolding deref get_ue_teid
finish g h p ue r s nas (refused x) g1 g2 g3 s1 u1 (a, b) m l v e5 e6 e7 e8 e9 e10 k =
    absurd (ground arith)
finish g h p ue r s nas (answer t) g1 g2 g3 s1 u1 (a, b) m l v e5 e6 e7 e8 e9 e10 k =
    let (u, c, hh) = with_teid-created g g1 p ue r t l e5 in
    let r' = record r { downlink_teid = g.teid_generator } in
    let (w, same) = create-wanted ue u r' t c in
    let su : u1 ≡ u = ground (arith, lookup-insert p p u g.ue_heap) in
    let st : s1 ≡ t = ground arith in
    let sel : get_selected_nssai u t.pdu_session_id ≡ ok (a, b) =
      ap (λ x. get_selected_nssai x t.pdu_session_id) (sym su)
      ∙ ap (λ x. get_selected_nssai u1 x.pdu_session_id) (sym st)
      ∙ e8 in
    let (low, high) = id-in_table ue u r' t a b v c sel in
    let pools : h.teid_pool ≡ insert g.teid_generator p g.teid_pool =
      ground (arith, nas-teids g1 g2 p (some nas) e9, message-teids g2 g3 p m e10) in
    let ss : s ≡ r' = ground arith in
    (
      ap (λ x. is_wanted_nssai ue x.sst x.sd) ss ∙ w,
      ap (λ x. x.pdu_session_id) ss,
      ground arith,
      ground arith,
      ground (arith, lookup-insert g.teid_generator g.teid_generator p g.teid_pool),
    )

module _ (env : Env) where
  -- Where the handler gets through a session of the request, the UE's slices include that of the
  -- session, its id is that of the request and lies between 1 and 15, and its downlink TEID leads to
  -- the UE. So for a session of another slice, or with the id 16, the handler does not return.
  pub session-created :
      (g h : Gnb) (p : ℕ) (ue : GnbUe) (item : SetupItem) (s : GnbPduSession)
      → lookup p g.ue_heap ≡ some ue
      → IsTable ue
      → setup_resource_item env g p item ≡ ok (s, h)
      → (is_wanted_nssai ue s.sst s.sd ≡ true)
        × (s.pdu_session_id ≡ item.pdu_session_id)
        × (0 < s.pdu_session_id)
        × (s.pdu_session_id < 16)
        × (get_gnb_ue_by_teid h s.downlink_teid ≡ some p)
  unfolding setup_resource_item get_gnb_ue_by_teid
  session-created g h p ue item s l v e =
      let (nas, e1, k1) = >>=-eq-ok (or_fatal item.nas_pdu) _ e in
      let (transfer, e2, k2) = >>=-eq-ok (or_fatal item.transfer) _ k1 in
      let (t, e3, k3) = >>=-eq-ok (decoded_transfer (env.decode_transfer transfer)) _ k2 in
      let (ip, e4, k4) = >>=-eq-ok (dotted t.upf_address) _ k3 in
      let r : GnbPduSession = record {
        pdu_session_id = item.pdu_session_id;
        upf_ip = ip;
        sst = hex_or_not_informed item.snssai.sst;
        sd = hex_or_not_informed item.snssai.sd;
        uplink_teid = t.ul_teid;
        downlink_teid = 0;
        pdu_type = t.pdu_s_type;
        qos_id = t.qos_id;
        five_qi = t.five_qi;
        pri_arp = t.pri_arp;
      } in
      let ((g1, created), e5, k5) = >>=-eq-ok (create_with_teid g p r) _ k4 in
      let (s1, e6, k6) = >>=-eq-ok (or_nil_panic created) _ k5 in
      let (u1, e7, k7) = >>=-eq-ok (deref g1 p) _ k6 in
      let (n, e8, k8) = >>=-eq-ok (get_selected_nssai u1 s1.pdu_session_id) _ k7 in
      let (g2, e9, k9) = >>=-eq-ok (send_to_ue g1 p (some nas)) _ k8 in
      let (g3, e10, k10) =
        >>=-eq-ok
          (send_message_to_ue g2 p
            (record empty_message { gnb_ip = g2.n3_ip; gnb_pdu_sessions = first_session s1 }))
          _ k9 in
      finish g h p ue r s nas created g1 g2 g3 s1 u1 n _ l v e5 e6 e7 e8 e9 e10 k10
