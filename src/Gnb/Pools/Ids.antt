-- ===== src/Gnb/Pools/Ids.antt =====
-- The identities that a gNodeB gives to its UEs.
use g_cn_testbed_k8s.Base.{
  ℕ, ◌+◌, ◌<◌, ◌≡◌, ◌^◌, refl, Option, none, some, arith, Map, lookup, insert, lookup-insert,
  if◌then◌else◌, ◌==◌, Bool-cases, Option-cases, inl, inr,
}
use g_cn_testbed_k8s.Gnb.State.{Gnb, GnbUe}
use g_cn_testbed_k8s.Gnb.Pools.{
  new_ue, store_ue, new_gnb_ue, select_amf_by_active, get_gnb_ue, get_ue_teid, get_gnb_ue_by_teid,
}

-- Every id in a pool leads to a UE that bears it.
abbrev pub Named : Map GnbUe → Map ℕ → Type 0
Named heap pool =
    (id p : ℕ)
    → lookup id pool ≡ some p
    → (ue : GnbUe) × (lookup p heap ≡ some ue) × (ue.ran_ue_ngap_id ≡ id)

-- Every id in the UE pool is below the counter, and leads to a UE that bears it.
pub record IsPools (g : Gnb) : Type 0 where
  pub fresh : (id p : ℕ) → lookup id g.ue_pool ≡ some p → id < g.id_ue_generator
  pub old : (id p : ℕ) → lookup id g.ue_pool ≡ some p → p < g.next_ptr
  pub named : Named g.ue_heap g.ue_pool

-- The id of a new UE was in use by no other, is that of the new UE afterwards, and every other id
-- leads where it led, whether an AMF was found or not.
pub get-new_gnb_ue :
    (g : Gnb) (tx rx : Option ℕ) (pr j : ℕ) (tmsi : Option ℕ)
    → IsPools g
    → (get_gnb_ue g g.id_ue_generator ≡ none)
      × (get_gnb_ue (new_gnb_ue g tx rx pr tmsi).0 j
          ≡ (if g.id_ue_generator == j then some g.next_ptr else get_gnb_ue g j))
unfolding get_gnb_ue new_gnb_ue
get-new_gnb_ue g tx rx pr j tmsi v = (
  elim (Option-cases (lookup g.id_ue_generator g.ue_pool)) [
    | inl e ↦ e
    | inr (p, e) ↦ absurd (omega (arith, v.fresh g.id_ue_generator p e))
  ],
  elim (Option-cases (select_amf_by_active (store_ue g tx rx pr tmsi))) [
    | inl e ↦ ground (arith, lookup-insert j g.id_ue_generator g.next_ptr g.ue_pool)
    | inr (a, e) ↦ ground (arith, lookup-insert j g.id_ue_generator g.next_ptr g.ue_pool)
  ],
)

insert-Named :
    (h : Map GnbUe) (m : Map ℕ) (n k : ℕ) (u : GnbUe)
    → Named h m
    → ((id q : ℕ) → lookup id m ≡ some q → q < n)
    → u.ran_ue_ngap_id ≡ k
    → Named (insert n u h) (insert k n m)
insert-Named h m n k u nm lt r id p e = elim (Bool-cases (k == id)) [
  | inl t ↦ (u, ground (arith, lookup-insert id k n m, lookup-insert p n u h), ground (arith))
  | inr f ↦
      let e' : lookup id m ≡ some p = ground (arith, lookup-insert id k n m) in
      let (ue, l, b) = nm id p e' in (ue, ground (arith, lookup-insert p n u h, lt id p e'), b)
]

-- Writing to a UE keeps the names, if its id stays.
pub update-Named :
    (h : Map GnbUe) (m : Map ℕ) (n : ℕ) (old u : GnbUe)
    → Named h m
    → lookup n h ≡ some old
    → u.ran_ue_ngap_id ≡ old.ran_ue_ngap_id
    → Named (insert n u h) m
update-Named h m n old u nm o r id p e =
    let (ue, l, b) = nm id p e in
    elim (Bool-cases (n == p)) [
      | inl t ↦ (u, ground (arith, lookup-insert p n u h), ground arith)
      | inr f ↦ (ue, ground (arith, lookup-insert p n u h), b)
    ]

store_ue-IsPools :
    (g : Gnb) (tx rx : Option ℕ) (pr : ℕ) (tmsi : Option ℕ)
    → g.id_ue_generator + 1 < 2 ^ 64
    → IsPools g
    → IsPools (store_ue g tx rx pr tmsi)
unfolding store_ue
store_ue-IsPools g tx rx pr tmsi r v = record {
  fresh = λ id p e.
      ground (arith, v.fresh id p, lookup-insert id g.id_ue_generator g.next_ptr g.ue_pool);
  old =
      λ id p e. ground (arith, v.old id p, lookup-insert id g.id_ue_generator g.next_ptr g.ue_pool);
  named =
      insert-Named g.ue_heap g.ue_pool g.next_ptr g.id_ue_generator
        (new_ue g.id_ue_generator tx rx pr tmsi) v.named v.old refl;
}

-- Below the end of the int64 range of the counter, `NewGnBUe` keeps the pools well formed, whether
-- an AMF was found or not.
pub new_gnb_ue-IsPools :
    (g : Gnb) (tx rx : Option ℕ) (pr : ℕ) (tmsi : Option ℕ)
    → g.id_ue_generator + 1 < 2 ^ 64
    → IsPools g
    → IsPools (new_gnb_ue g tx rx pr tmsi).0
unfolding new_gnb_ue
new_gnb_ue-IsPools g tx rx pr tmsi r v =
    let w : IsPools (store_ue g tx rx pr tmsi) = store_ue-IsPools g tx rx pr tmsi r v in
    elim (Option-cases (select_amf_by_active (store_ue g tx rx pr tmsi))) [
      | inl e ↦ rw (e, new_gnb_ue) w
      | inr (a, e) ↦
          rw (e, new_gnb_ue)
            (record {
              fresh = w.fresh;
              old = w.old;
              named =
                  update-Named _ _ g.next_ptr (new_ue g.id_ue_generator tx rx pr tmsi) _ w.named
                    (unfold store_ue in
                      ground (
                        arith,
                        lookup-insert g.next_ptr g.next_ptr (new_ue g.id_ue_generator tx rx pr tmsi)
                            g.ue_heap,
                      ))
                    refl;
            })
    ]

-- A UE that gets no AMF stays in the pool all the same, and there it has the AMF 0.
pub new_gnb_ue_no_amf :
    (g : Gnb) (tx rx : Option ℕ) (pr : ℕ) (tmsi : Option ℕ)
    → (new_gnb_ue g tx rx pr tmsi).1 ≡ none
    → (get_gnb_ue (new_gnb_ue g tx rx pr tmsi).0 g.id_ue_generator ≡ some g.next_ptr)
      × (lookup g.next_ptr (new_gnb_ue g tx rx pr tmsi).0.ue_heap
          ≡ some (new_ue g.id_ue_generator tx rx pr tmsi))
unfolding get_gnb_ue new_gnb_ue
new_gnb_ue_no_amf g tx rx pr tmsi h =
    elim (Option-cases (select_amf_by_active (store_ue g tx rx pr tmsi))) [
      | inl e ↦ ground (
        arith,
        lookup-insert g.id_ue_generator g.id_ue_generator g.next_ptr g.ue_pool,
        lookup-insert g.next_ptr g.next_ptr (new_ue g.id_ue_generator tx rx pr tmsi) g.ue_heap,
      )
      | inr (a, e) ↦ absurd (ground arith)
    ]

-- A downlink TEID leads to the UE that it was given to, until the counter of 32 bits comes round,
-- and every other TEID leads where it led.
pub get-teid :
    (g : Gnb) (ue j : ℕ)
    → get_gnb_ue_by_teid (get_ue_teid g ue).1 j
      ≡ (if (get_ue_teid g ue).0 == j then some ue else get_gnb_ue_by_teid g j)
unfolding get_gnb_ue_by_teid get_ue_teid
get-teid g ue j = lookup-insert j g.teid_generator ue g.teid_pool
