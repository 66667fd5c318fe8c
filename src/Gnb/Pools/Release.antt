-- ===== src/Gnb/Pools/Release.antt =====
-- What is left of a UE after `DeleteGnBUe`.
use g_cn_testbed_k8s.Base.{
  ℕ, ◌≡◌, refl, Bool, false, ◌||◌, [], ◌∷◌, none, some, ok, arith, Map, lookup, delete,
  lookup-delete, if◌then◌else◌, ◌==◌,
}
use g_cn_testbed_k8s.Gnb.State.{Gnb, GnbUe, Sessions}
use g_cn_testbed_k8s.Gnb.Pools.{
  get_gnb_ue, get_gnb_ue_by_pr_ue_id, get_gnb_ue_by_teid, delete_gnb_ue, compare_and_delete,
  delete_teids,
}

-- A session of the table has the downlink TEID `j`.
abbrev pub has_teid : ℕ → Sessions → Bool
has_teid j [] = false
has_teid j (none ∷ l) = has_teid j l
has_teid j (some s ∷ l) = (s.downlink_teid == j) || has_teid j l

lookup-delete_teids :
    (j : ℕ) (l : Sessions) (m : Map ℕ)
    → lookup j (delete_teids l m) ≡ (if has_teid j l then none else lookup j m)
unfolding delete_teids
lookup-delete_teids j [] m = refl
lookup-delete_teids j (none ∷ l) m = lookup-delete_teids j l m
lookup-delete_teids j (some s ∷ l) m =
    ground
      (arith, lookup-delete_teids j l (delete s.downlink_teid m), lookup-delete j s.downlink_teid m)

lookup-compare_and_delete :
    (j k p : ℕ) (m : Map ℕ)
    → lookup j (compare_and_delete k p m) ≡ (
        if k == j
        then (elim (lookup j m) [ none ↦ none | some q ↦ if q == p then none else some q ])
        else lookup j m)
unfolding compare_and_delete
lookup-compare_and_delete j k p m = ground (arith, lookup-delete j k m)

-- After `DeleteGnBUe` of a UE, no id, PacketRusher id or downlink TEID that was the UE's leads to
-- it, and every other entry of the three pools is as it was; a PacketRusher id that another UE has
-- taken over is kept too.
pub lookups-delete_gnb_ue :
    (g g' : Gnb) (p : ℕ) (ue : GnbUe) (j : ℕ)
    → lookup p g.ue_heap ≡ some ue
    → delete_gnb_ue g p ≡ ok g'
    → (get_gnb_ue g' j ≡ (if ue.ran_ue_ngap_id == j then none else get_gnb_ue g j))
      × (get_gnb_ue_by_pr_ue_id g' j ≡ (
          if ue.pr_ue_id == j
          then (elim (get_gnb_ue_by_pr_ue_id g j) [
            | none ↦ none
            | some q ↦ if q == p then none else some q
          ])
          else get_gnb_ue_by_pr_ue_id g j))
      × (get_gnb_ue_by_teid g' j
          ≡ (if has_teid j ue.context.pdu_session then none else get_gnb_ue_by_teid g j))
unfolding delete_gnb_ue get_gnb_ue get_gnb_ue_by_pr_ue_id get_gnb_ue_by_teid
lookups-delete_gnb_ue g g' p ue j h d = (
  ground (arith, lookup-delete j ue.ran_ue_ngap_id g.ue_pool),
  ground (arith, lookup-compare_and_delete j ue.pr_ue_id p g.pr_ue_pool),
  ground (arith, lookup-delete_teids j ue.context.pdu_session g.teid_pool),
)
