-- ===== src/Scenario/Simulation/Order.antt =====
-- In what order a scenario tells its UE what to do.
use g_cn_testbed_k8s.Base.{
  ℕ, zero, suc, ◌+◌, Text, ◌≡◌, refl, subst, Bool, Bool-cases, inl, inr, true, false, not, List, [],
  ◌∷◌, Result, ok, >>=-eq-ok, arith, if◌then◌else◌,
}
use g_cn_testbed_k8s.Ue.State.{
  StateMm, mm5g_null, mm5g_registered, mm5g_deregistered, mm5g_registered_initiated,
  mm5g_service_req_init, mm5g_deregistered_init, mm5g_idle,
}
use g_cn_testbed_k8s.Ue.Manager.{UeTesterMessage, new_pdu_session, idle, terminate, service_request}
use g_cn_testbed_k8s.Scenario.Msin.{increment_msin}
use g_cn_testbed_k8s.Scenario.Simulation.{
  SimConfig, Sim, SimEvent, deregistration_time, ngap_handover_time, xn_handover_time, idle_time,
  reconnect_time, from_scenario, from_ue, start, initial, simulate, tell, tell_times, tell_if,
  hand_over, on_state, sim_step, run, stops, gnb_at, Handover,
}

abbrev pub NoStop : List UeTesterMessage → Type 0
NoStop [] = Unit
NoStop (m ∷ l) = (stops m ≡ false) × NoStop l

-- While the channel to the UE is there no stop has been sent; else the last message is the only one.
abbrev pub IsOrdered : Bool → List UeTesterMessage → Type 0
IsOrdered true l = NoStop l
IsOrdered false [] = true ≡ false
IsOrdered false (m ∷ l) = (stops m ≡ true) × NoStop l

abbrev IsTold : Sim → Type 0
IsTold s = IsOrdered s.ue_rx s.told

if_ok :
    (b : Bool) (x y : Result Sim) (t : Sim)
    → (b ≡ true → x ≡ ok t → IsTold t)
    → (b ≡ false → y ≡ ok t → IsTold t)
    → (if b then x else y) ≡ ok t
    → IsTold t
if_ok true x y t h k e = h refl e
if_ok false x y t h k e = k refl e

-- What is returned is as told.
returned : (s t : Sim) → IsTold s → ok s ≡ ok t → IsTold t
returned s t h e = let same : s ≡ t = cc e in subst IsTold same h

told_more :
    (b : Bool) (l : List UeTesterMessage) (m : UeTesterMessage)
    → b ≡ true
    → stops m ≡ false
    → IsOrdered b l
    → IsOrdered b (m ∷ l)
told_more true l m e n h = (n, h)
told_more false l m e n h = cc e

told_last :
    (b c : Bool) (l : List UeTesterMessage) (m : UeTesterMessage)
    → b ≡ true
    → stops m ≡ c
    → IsOrdered b l
    → IsOrdered (not c) (m ∷ l)
told_last true true l m e n h = (n, h)
told_last true false l m e n h = (n, h)
told_last false c l m e n h = absurd (ground arith)

tell-IsTold :
    (m : UeTesterMessage) (s t : Sim) → stops m ≡ false → IsTold s → tell m s ≡ ok t → IsTold t
unfolding tell
tell-IsTold m s t n h e =
    if_ok s.ue_rx _ _ t
      (λ b. returned (record s { told = m ∷ s.told }) t (told_more s.ue_rx s.told m b n h))
      (λ b x. cc x) e

tell_times-IsTold :
    (n : ℕ) (m : UeTesterMessage) (s t : Sim)
    → stops m ≡ false
    → IsTold s
    → tell_times n m s ≡ ok t
    → IsTold t
unfolding tell_times
tell_times-IsTold zero m s t n h e = returned s t h e
tell_times-IsTold (suc k) m s t n h e =
    let (u, x, y) = >>=-eq-ok (tell m s) _ e in
    tell_times-IsTold k m u t n (tell-IsTold m s u n h x) y

-- A handover tells the UE nothing.
hand_over-IsTold :
    (c : SimConfig) (kind : Text → Text → Handover) (known sent : Bool) (s t : Sim)
    → IsTold s
    → hand_over c kind known sent s ≡ ok t
    → IsTold t
unfolding hand_over
hand_over-IsTold c kind known sent s t h e =
    let (source, x, e1) = >>=-eq-ok (gnb_at c s.next_handover_id) _ e in
    if_ok (not known) _ _ t (λ a b. cc b)
      (λ a b.
        let (target, y, e2) = >>=-eq-ok (gnb_at c (s.next_handover_id + 1)) _ b in
        if_ok (not sent) _ _ t (λ d k. cc k)
          (λ d.
            returned
              (record s {
                handovers = kind source target ∷ s.handovers;
                next_handover_id = s.next_handover_id + 1;
              })
              t h)
          e2)
      e1

on_state-IsTold :
    (c : SimConfig) (m : StateMm) (s t : Sim) → IsTold s → on_state c m s ≡ ok t → IsTold t
unfolding on_state
on_state-IsTold c mm5g_registered s t h =
    if_ok s.registered _ _ t (λ b. returned s t h)
      (λ b e.
        let (u, x, y) = >>=-eq-ok (tell_times c.num_pdu_sessions new_pdu_session s) _ e in
        returned (record u { registered = true }) t
          (tell_times-IsTold c.num_pdu_sessions new_pdu_session s u refl h x) y)
on_state-IsTold c mm5g_null s t h = returned (record s { loop = false }) t h
on_state-IsTold c mm5g_deregistered s t h = returned s t h
on_state-IsTold c mm5g_registered_initiated s t h = returned s t h
on_state-IsTold c mm5g_service_req_init s t h = returned s t h
on_state-IsTold c mm5g_deregistered_init s t h = returned s t h
on_state-IsTold c mm5g_idle s t h = returned s t h

if_told :
    (m : UeTesterMessage) (s : Sim) (b : Bool)
    → s.ue_rx ≡ b
    → (if b then IsOrdered s.ue_rx (m ∷ s.told) else IsTold s)
    → IsTold (if s.ue_rx then record s { told = m ∷ s.told } else s)
if_told m s true e h = rw e (rw e at h)
if_told m s false e h = rw e (rw e at h)

tell_if-IsTold : (m : UeTesterMessage) (s : Sim) → stops m ≡ false → IsTold s → IsTold (tell_if m s)
unfolding tell_if
tell_if-IsTold m s n h = elim (Bool-cases s.ue_rx) [
  | inl b ↦ if_told m s true b (told_more s.ue_rx s.told m b n h)
  | inr b ↦ if_told m s false b h
]

step-IsTold :
    (c : SimConfig) (e : SimEvent) (s t : Sim) → IsTold s → sim_step c s e ≡ ok t → IsTold t
unfolding sim_step
step-IsTold c deregistration_time s t h =
    if_ok (not s.deregistration_channel) _ _ t (λ x. returned s t h)
      (λ x.
        if_ok s.ue_rx _ _ t
          (λ b.
            returned
              (record s {
                told = terminate ∷ s.told;
                ue_rx = false;
                deregistration_channel = false;
              })
              t (told_last s.ue_rx true s.told terminate b refl h))
          (λ b. returned (record s { deregistration_channel = false }) t h))
step-IsTold c (ngap_handover_time known sent) s t h =
    if_ok (not s.ngap_handover_channel) _ _ t (λ x. returned s t h)
      (λ x. hand_over-IsTold c _ known sent (record s { ngap_handover_channel = false }) t h)
step-IsTold c (xn_handover_time known) s t h =
    if_ok (not s.xn_handover_channel) _ _ t (λ x. returned s t h)
      (λ x. hand_over-IsTold c _ known true (record s { xn_handover_channel = false }) t h)
step-IsTold c idle_time s t h =
    if_ok (not s.idle_channel) _ _ t (λ x. returned s t h)
      (λ x.
        if_ok s.ue_rx _ _ t (λ b. returned _ t (told_more s.ue_rx s.told idle b refl h))
          (λ b. returned (record s { idle_channel = false }) t h))
step-IsTold c reconnect_time s t h =
    if_ok (not s.reconnect_channel) _ _ t (λ x. returned s t h)
      (λ x.
        returned _ t
          (tell_if-IsTold service_request (record s { reconnect_channel = false }) refl h))
step-IsTold c (from_scenario m) s t h =
    if_ok s.ue_rx _ _ t
      (λ b.
        returned (record s { told = m ∷ s.told; ue_rx = not (stops m) }) t
          (told_last s.ue_rx (stops m) s.told m b refl h))
      (λ b. returned s t h)
step-IsTold c (from_ue m) s t h = λ e.
    let (u, x, y) = >>=-eq-ok (on_state c m s) _ e in
    returned (record u { state = m }) t (on_state-IsTold c m s u h x) y

run-IsTold :
    (c : SimConfig) (l : List SimEvent) (s t : Sim) → IsTold s → run c s l ≡ ok t → IsTold t
unfolding run
run-IsTold c [] s t h = returned s t h
run-IsTold c (e ∷ l) s t h =
    if_ok s.loop _ _ t
      (λ b x.
        let (u, y, z) = >>=-eq-ok (sim_step c s e) _ x in
        run-IsTold c l u t (step-IsTold c e s u h y) z)
      (λ b. returned s t h)

-- Whatever a scenario's timers, its messages and the changes of its UE's state are, and in whatever
-- order they come: wherever the loop gets to with them, the UE has been told to stop, by Terminate or by Kill, just if
-- its channel has been given up, at most once, and as the last thing it was told.
pub run-IsOrdered :
    (c : SimConfig) (l : List SimEvent) (t : Sim) → simulate c l ≡ ok t → IsOrdered t.ue_rx t.told
unfolding simulate start
run-IsOrdered c l t h =
    let (s, x, y) = >>=-eq-ok (start c) _ h in
    let (msin, x1, x2) = >>=-eq-ok (increment_msin c.ue_id c.msin) _ x in
    let (name, x3, x4) = >>=-eq-ok (gnb_at c 0) _ x2 in
    let same : initial c ≡ s = cc x4 in run-IsTold c l s t (subst IsTold same (refl, tt)) y
