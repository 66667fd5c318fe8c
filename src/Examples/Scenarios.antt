-- ===== src/Examples/Scenarios.antt =====
-- Examples for scenarios.
use g_cn_testbed_k8s.Base.{
  ℕ, ◌+◌, ◌≡◌, refl, true, false, List, [], ◌∷◌, some, Text, codes, ok, arith, length, text_eq,
}
use g_cn_testbed_k8s.Strconv.Digits.{Digits, print}
use g_cn_testbed_k8s.Strconv.Digits
use g_cn_testbed_k8s.Ue.Auth.Replay.{value}
use g_cn_testbed_k8s.Ue.State.{mm5g_registered, mm5g_null, mm5g_registered_initiated}
use g_cn_testbed_k8s.Ue.Manager.{terminate, new_pdu_session, registration}
use g_cn_testbed_k8s.Strconv.{scan_digits, atoi}
use g_cn_testbed_k8s.Scenario.Numbers.{format, add_int, pred_int}
use g_cn_testbed_k8s.Scenario.Msin.{
  gnb_id_generator, parse_hex, increment_msin, shifted, increment_msin-value,
}
use g_cn_testbed_k8s.Scenario.Simulation.{
  SimConfig, Sim, SimEvent, deregistration_time, from_ue, start, initial, simulate, run, gnb_at,
  gnb_id_gen, is_in,
}
use g_cn_testbed_k8s.Scenario.Gnbs.{Net, GnbConfig, create_gnbs, increment_ip, increment_octets}
use g_cn_testbed_k8s.Scenario.Gnbs.Names.{gnb_at-create_gnbs}
use g_cn_testbed_k8s.Scenario.Gnbs.Addresses.{increment_octets-value}
use g_cn_testbed_k8s.Scenario.Simulation.Order.{IsOrdered, run-IsOrdered}

abbrev two_sessions : SimConfig
two_sessions = record {
  ue_id = 1;
  gnbs = codes "000001" ∷ [];
  gnb_id = codes "000001";
  msin = codes "0000000120";
  time_before_deregistration = 500;
  time_before_ngap_handover = 0;
  time_before_xn_handover = 0;
  time_before_idle = 0;
  time_before_reconnecting = 0;
  num_pdu_sessions = 2;
}

-- The UE registers, and is deregistered after its time.
abbrev events : List SimEvent
events = from_ue mm5g_registered ∷ deregistration_time ∷ from_ue mm5g_null ∷ []

abbrev ended : Sim
ended = record (initial two_sessions) {
  ue_rx = false;
  deregistration_channel = false;
  registered = true;
  loop = false;
  told = terminate ∷ new_pdu_session ∷ new_pdu_session ∷ registration ∷ [];
}

started : start two_sessions ≡ ok (initial two_sessions)
unfolding start increment_msin shifted atoi gnb_at gnb_id_gen gnb_id_generator parse_hex scan_digits
    format add_int pred_int is_in text_eq
started = refl

events_run : simulate two_sessions events ≡ ok ended
unfolding simulate run
events_run = rw started refl

run-IsOrdered_example :
    IsOrdered false (terminate ∷ new_pdu_session ∷ new_pdu_session ∷ registration ∷ [])
run-IsOrdered_example = run-IsOrdered two_sessions events ended events_run

-- The UE is on its way when its time is over, and the scenario has something to say to it still.
abbrev on_its_way : List SimEvent
on_its_way = from_ue mm5g_registered_initiated ∷ []

abbrev under_way : Sim
under_way = record (initial two_sessions) { state = mm5g_registered_initiated }

increment_msin-value_example :
    (es : List ℕ) × (increment_msin 3 (codes "000000099") ≡ ok (print es))
    × Digits es
    × (length es ≡ 9)
    × (Digits.value es ≡ 101)
increment_msin-value_example =
    increment_msin-value 3 0 (0 ∷ 0 ∷ 0 ∷ 0 ∷ 0 ∷ 0 ∷ 9 ∷ 9 ∷ []) (omega arith)
      (
        omega arith,
        (
          omega arith,
          (
            omega arith,
            (
              omega arith,
              (omega arith, (omega arith, (omega arith, (omega arith, (omega arith, tt))))),
            ),
          ),
        ),
      )
      (omega arith)

-- Addresses are four octets, whose text is the octets themselves.
abbrev octets_net : Net
octets_net = record { parse_ip = λ s. s; parse_cidr = λ s. some (λ ip. true); ip_string = λ ip. ip }

abbrev first_gnb : GnbConfig
first_gnb = record {
  gnb_id = codes "000001";
  n2_ip = 192 ∷ 168 ∷ 2 ∷ 255 ∷ [];
  n3_ip = 192 ∷ 168 ∷ 3 ∷ 10 ∷ [];
}

abbrev second_gnb : GnbConfig
second_gnb = record {
  gnb_id = codes "000002";
  n2_ip = 192 ∷ 168 ∷ 3 ∷ 0 ∷ [];
  n3_ip = 192 ∷ 168 ∷ 3 ∷ 11 ∷ [];
}

abbrev two_gnbs : SimConfig
two_gnbs = record two_sessions { gnbs = codes "000002" ∷ codes "000001" ∷ [] }

spelled : gnb_id_generator 0 (codes "000001") ≡ ok (codes "000001")
unfolding gnb_id_generator parse_hex scan_digits format add_int
spelled = refl

gnbs_created :
    create_gnbs octets_net 2 first_gnb
    ≡ ok (second_gnb ∷ first_gnb ∷ [], codes "000002" ∷ codes "000001" ∷ [])
unfolding create_gnbs gnb_id_generator parse_hex scan_digits increment_ip format text_eq add_int
gnbs_created = refl

gnb_at-create_gnbs_example :
    (name : Text) × (gnb_at two_gnbs 4 ≡ ok name) × (is_in name two_gnbs.gnbs ≡ true)
gnb_at-create_gnbs_example =
    gnb_at-create_gnbs octets_net 2 first_gnb (second_gnb ∷ first_gnb ∷ []) two_gnbs spelled
      (omega arith) gnbs_created refl 4

increment_octets-value_example :
    (value (0 ∷ 2 ∷ 0 ∷ []) + 0 ≡ value (0 ∷ 1 ∷ 255 ∷ []) + 1)
    × (length {A = ℕ} (0 ∷ 2 ∷ 0 ∷ []) ≡ 3)
unfolding increment_octets
increment_octets-value_example =
    increment_octets-value (0 ∷ 1 ∷ 255 ∷ []) (omega arith, (omega arith, (omega arith, tt)))
