-- ===== src/Gnb/Nas/Uplink.antt =====
-- The first uplink messages of a UE, over `Dispatch` of gnb/nas/dispatcher.go.
use g_cn_testbed_k8s.Base.{
  ℕ, ◌≡◌, true, List, ◌∷◌, Option, some, ok, arith, lookup, lookup-insert, ◌>>=◌,
}
use g_cn_testbed_k8s.Gnb.State.{
  Gnb, GnbUe, initialized, ongoing, initial_ue_message, uplink_nas_transport, to_amf,
}
use g_cn_testbed_k8s.Gnb.Ngap.{Env, deref, put_ue, send_logged}
use g_cn_testbed_k8s.Gnb.Nas.{dispatch_nas, handler_ue_initialized, handler_ue_ongoing}

module _ (env : Env) where
  -- A new UE's first message goes to its AMF as an Initial UE Message, and the next one as an Uplink
  -- NAS Transport, both on the UE's association and under its id, if the encoder and the
  -- association take them.
  pub first_two_messages :
      (g : Gnb) (p : ℕ) (ue : GnbUe) (a b : Option (List ℕ))
      → lookup p g.ue_heap ≡ some ue
      → ue.state ≡ initialized
      → env.encodes (initial_ue_message ue.ran_ue_ngap_id a) ≡ true
      → env.encodes (uplink_nas_transport ue.ran_ue_ngap_id b) ≡ true
      → env.write ue.sctp_connection (initial_ue_message ue.ran_ue_ngap_id a) ≡ ok true
      → env.write ue.sctp_connection (uplink_nas_transport ue.ran_ue_ngap_id b) ≡ ok true
      → (dispatch_nas env g p a >>= λ h. dispatch_nas env h p b)
        ≡ ok (record (put_ue g p (record ue { state = ongoing })) {
          sent =
              to_amf ue.sctp_connection (uplink_nas_transport ue.ran_ue_ngap_id b)
              ∷ to_amf ue.sctp_connection (initial_ue_message ue.ran_ue_ngap_id a)
              ∷ g.sent;
        })
  unfolding dispatch_nas handler_ue_initialized handler_ue_ongoing send_logged deref
  first_two_messages g p ue a b l s ea eb wa wb =
      ground (arith, lookup-insert p p (record ue { state = ongoing }) g.ue_heap)
