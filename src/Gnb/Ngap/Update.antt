-- ===== src/Gnb/Ngap/Update.antt =====
-- `HandlerAmfConfigurationUpdate` of PacketRusher/internal/control_test_engine/gnb/ngap/handler.go.
pub mod Removed
use g_cn_testbed_k8s.Base.{
  ℕ, Bool, ◌&&◌, ◌||◌, List, [], ◌∷◌, none, some, Text, Result, ok, panic, or_panic, ◌>>=◌, ◌==◌,
  if◌then◌else◌, text_eq,
}
use g_cn_testbed_k8s.Gnb.State.{
  Gnb, GnbAmf, released, amf_configuration_update_acknowledge, ng_setup_request,
}
use g_cn_testbed_k8s.Gnb.Pools.{new_gnb_amf}
use g_cn_testbed_k8s.Gnb.Ngap.{
  Ie, served_guami_list, relative_amf_capacity, to_add_list, to_remove_list, to_update_list, Guami,
  or_fatal, Association, Env, send_logged,
}
use g_cn_testbed_k8s.Gnb.Ngap.Amf.{put_amf, deref_amf, find_amf, remove_id}

-- The local variables of `HandlerAmfConfigurationUpdate`.
pub record Update : Type 0 where
  pub amf_name : Text
  pub amf_capacity : ℕ
  pub region_id : ℕ
  pub set_id : ℕ
  pub pointer : ℕ

-- The default SCTP port.
abbrev sctp_port : ℕ
sctp_port = 38412

-- What is set in an AMF that is added or updated.
abbrev pub with_update : GnbAmf → Update → (usage weight : ℕ) → GnbAmf
with_update amf u usage weight = record amf {
  name = u.amf_name;
  relative_amf_capacity = u.amf_capacity;
  region_id = u.region_id;
  set_id = u.set_id;
  pointer = u.pointer;
  tnla = record amf.tnla { usage = usage; tnla_weight_factor = weight };
}

pub last_guami : List (Guami × Bool × Bool × Bool) → Update → Update
last_guami [] u = u
last_guami ((guami, _, _, _) ∷ l) u =
    last_guami l
      (record u { region_id = guami.region_id; set_id = guami.set_id; pointer = guami.pointer })

module _ (env : Env) where
  -- IPv4, or IPv4 and IPv6; otherwise the string is empty.
  unfoldable pub ipv4_of : Association → Text
  ipv4_of a =
      if a.bit_length == 32 || a.bit_length == 160 then env.ip_address_to_string a.address else []

  -- A new AMF, unless the pool has one with the address. A usage that is nil is used.
  unfoldable pub add_association : Gnb → Update → Association → Result Gnb
  unfolding find_amf ipv4_of
  add_association g u a =
      elim (find_amf g.amf_heap g.amf_pool (λ x. text_eq x.amf_ip (ipv4_of a))) [
        | some _ ↦ ok g
        | none ↦
            let (id, g1) = new_gnb_amf g (ipv4_of a) sctp_port in
            (do
              amf ← deref_amf g1 id
              usage ← or_panic a.usage
              weight ← or_panic a.weight
              conn ← or_fatal (env.dial (ipv4_of a) sctp_port)
              let dialled = record (with_update amf u usage weight) {
                tnla = record (with_update amf u usage weight).tnla { sctp_conn = some conn };
              }
              send_logged env (record (put_amf g1 id dialled) { n2 = some conn }) (some conn)
                  ng_setup_request)
      ]

  abbrev pub is_association : Text → GnbAmf → Bool
  is_association ip x = text_eq x.amf_ip ip && x.amf_port == sctp_port

  -- The AMF with the address leaves the pool. The association that is closed is that of `sender`,
  -- the AMF whose message is handled.
  unfoldable pub remove_association : Gnb → ℕ → Association → Result Gnb
  unfolding find_amf ipv4_of deref_amf remove_id
  remove_association g sender a =
      elim (find_amf g.amf_heap g.amf_pool (is_association (ipv4_of a))) [
        | none ↦ ok g
        | some (id, old) ↦ deref_amf g sender >>= λ amf. ok (record g {
          amf_pool = remove_id id g.amf_pool;
          sent = released amf.tnla.sctp_conn ∷ g.sent;
        })
      ]

  -- The AMF with the address is changed; a usage or a weight that is nil is used.
  unfoldable pub update_association : Gnb → Update → Association → Result Gnb
  unfolding find_amf ipv4_of
  update_association g u a = elim (find_amf g.amf_heap g.amf_pool (is_association (ipv4_of a))) [
    | none ↦ ok g
    | some (id, old) ↦ or_panic a.usage >>= λ usage.
        or_panic a.weight >>= λ weight. ok (put_amf g id (with_update old u usage weight))
  ]

  unfoldable pub for_associations :
      (Gnb → Association → Result Gnb) → Gnb → List Association → Result Gnb
  for_associations f g [] = ok g
  for_associations f g (a ∷ l) = f g a >>= λ g'. for_associations f g' l

  -- The loop over the elements; what follows uses what stood before it.
  unfoldable pub scan_update : Gnb → ℕ → Update → List Ie → Result Gnb
  unfolding last_guami for_associations
  scan_update g sender u [] = ok g
  scan_update g sender u (Ie.amf_name none ∷ l) = panic
  scan_update g sender u (Ie.amf_name (some n) ∷ l) =
      scan_update g sender (record u { amf_name = n }) l
  scan_update g sender u (served_guami_list none ∷ l) = scan_update g sender u l
  scan_update g sender u (served_guami_list (some v) ∷ l) = scan_update g sender (last_guami v u) l
  scan_update g sender u (relative_amf_capacity none ∷ l) = panic
  scan_update g sender u (relative_amf_capacity (some v) ∷ l) =
      scan_update g sender (record u { amf_capacity = v }) l
  scan_update g sender u (to_add_list v ∷ l) =
      for_associations (λ h a. add_association h u a) g v >>= λ g'. scan_update g' sender u l
  scan_update g sender u (to_remove_list v ∷ l) =
      for_associations (λ h a. remove_association h sender a) g v >>= λ g'.
      scan_update g' sender u l
  scan_update g sender u (to_update_list v ∷ l) =
      for_associations (λ h a. update_association h u a) g v >>= λ g'. scan_update g' sender u l
  scan_update g sender u (_ ∷ l) = scan_update g sender u l

  -- `HandlerAmfConfigurationUpdate`
  unfoldable pub handler_amf_configuration_update : Gnb → ℕ → List Ie → Result Gnb
  unfolding scan_update deref_amf
  handler_amf_configuration_update g sender ies = do
    g' ←
        scan_update g sender
          (record { amf_name = []; amf_capacity = 0; region_id = 0; set_id = 0; pointer = 0 }) ies
    amf ← deref_amf g' sender
    send_logged env g' amf.tnla.sctp_conn amf_configuration_update_acknowledge
