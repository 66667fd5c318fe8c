-- ===== src/Scenario/Simulation/Stopped.antt =====
-- A scenario that has stopped its UE before it sees the UE registered.
use g_cn_testbed_k8s.Base.{◌≡◌, Bool, true, false, List, [], ◌∷◌}
use g_cn_testbed_k8s.Ue.State.{mm5g_null, mm5g_registered}
use g_cn_testbed_k8s.Scenario.Simulation.{
  Sim, SimEvent, deregistration_time, ngap_handover_time, xn_handover_time, idle_time,
  reconnect_time, from_scenario, from_ue, stops,
}

-- The loop goes on, without a channel to the UE and without having seen it registered.
record IsWaiting (s : Sim) : Type 0 where
  gone : s.ue_rx ≡ false
  unseen : s.registered ≡ false
  on : s.loop ≡ true

-- An event that stops the UE, if it has not been stopped.
abbrev pub IsStop : Sim → SimEvent → Type 0
IsStop s deregistration_time = s.deregistration_channel ≡ true
IsStop s (from_scenario m) = stops m ≡ true
IsStop s idle_time = true ≡ false
IsStop s reconnect_time = true ≡ false
IsStop s (ngap_handover_time known sent) = true ≡ false
IsStop s (xn_handover_time known) = true ≡ false
IsStop s (from_ue m) = true ≡ false

-- Neither a handover nor a UE that is registered or gone.
abbrev pub is_quiet : SimEvent → Bool
is_quiet (ngap_handover_time known sent) = false
is_quiet (xn_handover_time known) = false
is_quiet (from_ue mm5g_registered) = false
is_quiet (from_ue mm5g_null) = false
is_quiet _ = true

abbrev pub AllQuiet : List SimEvent → Type 0
AllQuiet [] = Unit
AllQuiet (e ∷ l) = (is_quiet e ≡ true) × AllQuiet l
