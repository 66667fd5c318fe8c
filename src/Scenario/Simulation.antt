-- ===== src/Scenario/Simulation.antt =====
-- The scenario of one UE: the loop of `SimulateSingleUE` of PacketRusher/internal/common/tools/tools.go.
-- What the UE is told, and the handovers that are triggered, are listed with the last one in front.
pub mod Order
pub mod Stopped
use g_cn_testbed_k8s.Base.{
  ℕ, zero, suc, ◌+◌, ◌%◌, ◌≡◌, Bool, true, false, not, List, [], ◌∷◌, ◌++◌, Option, none, some,
  Text, Result, ok, panic, fatal, blocked, ◌>>=◌, ◌==◌, text_eq, length, if◌then◌else◌,
}
use g_cn_testbed_k8s.Ue.State.{
  StateMm, mm5g_null, mm5g_registered, mm5g_deregistered, mm5g_registered_initiated,
  mm5g_service_req_init, mm5g_deregistered_init, mm5g_idle,
}
use g_cn_testbed_k8s.Ue.Manager.{
  UeTesterMessage, registration, new_pdu_session, idle, service_request, terminate, kill,
}
use g_cn_testbed_k8s.Scenario.Msin.{gnb_id_generator, increment_msin}

-- `UESimulationConfig`, with the names of the gNodeBs, and of the configuration the id and the MSIN;
-- the times are in milliseconds, and 0 says never.
pub record SimConfig : Type 0 where
  pub ue_id : ℕ
  pub gnbs : List Text
  pub gnb_id : Text
  pub msin : Text
  pub time_before_deregistration : ℕ
  pub time_before_ngap_handover : ℕ
  pub time_before_xn_handover : ℕ
  pub time_before_idle : ℕ
  pub time_before_reconnecting : ℕ
  pub num_pdu_sessions : ℕ

pub data Handover : Type 0 where
  ngap xn : (source target : Text) → Handover

-- A timer that is set fires once. `ue_rx` says whether the channel to the UE is there still.
pub record Sim : Type 0 where
  pub ue_rx : Bool
  pub deregistration_channel : Bool
  pub ngap_handover_channel : Bool
  pub xn_handover_channel : Bool
  pub idle_channel : Bool
  pub reconnect_channel : Bool
  pub next_handover_id : ℕ
  pub registered : Bool
  pub loop : Bool
  pub state : StateMm
  pub told : List UeTesterMessage
  pub handovers : List Handover

-- What the loop selects; with a handover, whether the old gNodeB knows the UE, and for one through the
-- core whether its message can be sent.
pub data SimEvent : Type 0 where
  deregistration_time idle_time reconnect_time : SimEvent
  ngap_handover_time : (known sent : Bool) → SimEvent
  xn_handover_time : (known : Bool) → SimEvent
  from_scenario : UeTesterMessage → SimEvent
  from_ue : (state_change : StateMm) → SimEvent

-- A time of 0 sets no timer.
abbrev is_set : ℕ → Bool
is_set t = not (t == 0)

-- The state before the loop: the UE has been told to register.
abbrev pub initial : SimConfig → Sim
initial c = record {
  ue_rx = true;
  deregistration_channel = is_set c.time_before_deregistration;
  ngap_handover_channel = is_set c.time_before_ngap_handover;
  xn_handover_channel = is_set c.time_before_xn_handover;
  idle_channel = is_set c.time_before_idle;
  reconnect_channel = false;
  next_handover_id = 0;
  registered = false;
  loop = true;
  state = mm5g_null;
  told = registration ∷ [];
  handovers = [];
}

-- `ueRx <- msg`; a send on a nil channel waits for ever.
unfoldable pub tell : UeTesterMessage → Sim → Result Sim
tell m s = if s.ue_rx then ok (record s { told = m ∷ s.told }) else blocked

-- The same in a loop, so often.
unfoldable pub tell_times : ℕ → UeTesterMessage → Sim → Result Sim
unfolding tell
tell_times zero m s = ok s
tell_times (suc n) m s = tell m s >>= λ s'. tell_times n m s'

unfoldable pub is_in : Text → List Text → Bool
is_in t [] = false
is_in t (x ∷ l) = if text_eq x t then true else is_in t l

-- `gnbIdGen`; a remainder by 0 panics.
unfoldable pub gnb_id_gen : SimConfig → ℕ → Result Text
gnb_id_gen c index =
    if length c.gnbs == 0
    then panic
    else gnb_id_generator ((c.ue_id + index) % length c.gnbs) c.gnb_id

-- The gNodeB of that id; a name that is not in the map is a nil pointer, which the trigger uses.
unfoldable pub gnb_at : SimConfig → ℕ → Result Text
unfolding gnb_id_gen is_in
gnb_at c index = gnb_id_gen c index >>= λ name. if is_in name c.gnbs then ok name else panic

-- What happens before the loop: the MSIN is counted up, and the first gNodeB is looked up and used.
unfoldable pub start : SimConfig → Result Sim
unfolding increment_msin gnb_at
start c = increment_msin c.ue_id c.msin >>= λ msin. gnb_at c 0 >>= λ name. ok (initial c)

-- `TriggerNgapHandover` or `TriggerXnHandover`, which end the program if the old gNodeB does not know
-- the UE, before they use the new one, and if a message to the AMF cannot be sent, after that.
unfoldable pub hand_over :
    SimConfig → (Text → Text → Handover) → (known sent : Bool) → Sim → Result Sim
unfolding gnb_at
hand_over c kind known sent s = gnb_at c s.next_handover_id >>= λ source.
    if not known
    then fatal
    else gnb_at c (s.next_handover_id + 1) >>= λ target.
        if not sent
        then fatal
        else ok (record s {
          handovers = kind source target ∷ s.handovers;
          next_handover_id = s.next_handover_id + 1;
        })

-- The UE is told something if it has not been stopped.
unfoldable pub tell_if : UeTesterMessage → Sim → Sim
tell_if m s = if s.ue_rx then record s { told = m ∷ s.told } else s

-- Whether the scenario goes on without the UE.
abbrev pub stops : UeTesterMessage → Bool
stops terminate = true
stops kill = true
stops _ = false

-- What a change of the UE's state does.
unfoldable pub on_state : SimConfig → StateMm → Sim → Result Sim
unfolding tell_times
on_state c mm5g_registered s =
    if s.registered
    then ok s
    else tell_times c.num_pdu_sessions new_pdu_session s >>= λ s'.
        ok (record s' { registered = true })
on_state c mm5g_null s = ok (record s { loop = false })
on_state c _ s = ok s

-- One turn of the loop; a timer that is not set is not selected.
unfoldable pub sim_step : SimConfig → Sim → SimEvent → Result Sim
unfolding hand_over tell_if on_state
sim_step c s deregistration_time =
    if not s.deregistration_channel
    then ok s
    else if s.ue_rx
    then ok (record s { told = terminate ∷ s.told; ue_rx = false; deregistration_channel = false })
    else ok (record s { deregistration_channel = false })
sim_step c s (ngap_handover_time known sent) =
    if not s.ngap_handover_channel
    then ok s
    else hand_over c ngap known sent (record s { ngap_handover_channel = false })
sim_step c s (xn_handover_time known) =
    if not s.xn_handover_channel
    then ok s
    else hand_over c xn known true (record s { xn_handover_channel = false })
sim_step c s idle_time =
    if not s.idle_channel
    then ok s
    else if s.ue_rx
    then ok (record s {
      told = idle ∷ s.told;
      idle_channel = false;
      reconnect_channel = is_set c.time_before_reconnecting;
    })
    else ok (record s { idle_channel = false })
sim_step c s reconnect_time =
    if not s.reconnect_channel
    then ok s
    else ok (tell_if service_request (record s { reconnect_channel = false }))
sim_step c s (from_scenario m) =
    if s.ue_rx then ok (record s { told = m ∷ s.told; ue_rx = not (stops m) }) else ok s
sim_step c s (from_ue m) = on_state c m s >>= λ s'. ok (record s' { state = m })

-- The turns of the loop, until it ends.
unfoldable pub run : SimConfig → Sim → List SimEvent → Result Sim
unfolding sim_step
run c s [] = ok s
run c s (e ∷ l) = if s.loop then (sim_step c s e >>= λ s'. run c s' l) else ok s

-- `SimulateSingleUE`, for what the loop gets to select.
unfoldable pub simulate : SimConfig → List SimEvent → Result Sim
unfolding start run
simulate c l = start c >>= λ s. run c s l
