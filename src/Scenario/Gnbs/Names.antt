-- ===== src/Scenario/Gnbs/Names.antt =====
-- The names of the gNodeBs that are created, and those that a scenario looks up.
use g_cn_testbed_k8s.Base.{
  ℕ, zero, suc, ◌+◌, ◌%◌, ◌<◌, ◌≤◌, ◌≡◌, refl, subst, Bool-cases, inl, inr, true, false, List, [],
  ◌∷◌, Text, ok, >>=-eq-ok, arith, length, text_eq_refl, ◌==◌,
}
use native.Mathlib.Nat.{mod-lt}
use g_cn_testbed_k8s.Scenario.Msin.{gnb_id_generator}
use g_cn_testbed_k8s.Scenario.Simulation.{SimConfig, is_in, gnb_id_gen, gnb_at}
use g_cn_testbed_k8s.Scenario.Gnbs.{
  Net, GnbConfig, add_name, increment_ip, or_fatal, create_from, create_gnbs, all_addresses,
}

is_in-add_name : (name : Text) (names : List Text) → is_in name (add_name name names) ≡ true
unfolding add_name is_in
is_in-add_name name names = elim (Bool-cases (is_in name names)) [
  | inl e ↦ ground arith
  | inr e ↦ ground (arith, text_eq_refl name)
]

is_in-add_name_other :
    (name other : Text) (names : List Text)
    → is_in name names ≡ true
    → is_in name (add_name other names) ≡ true
unfolding add_name is_in
is_in-add_name_other name other names h = ground arith

length-add_name :
    (name : Text) (names : List Text) → length (add_name name names) ≤ length names + 1
unfolding add_name
length-add_name name names = ground arith

-- The first `k` gNodeBs of a base id are named as `gnbIdGenerator` does, and there are no others.
abbrev HasNames : Text → ℕ → List Text → Type 0
HasNames base k names =
    ((j : ℕ)
      → j < k
      → (name : Text) × (gnb_id_generator j base ≡ ok name) × (is_in name names ≡ true))
    × (length names ≤ k)

not_empty : (name : Text) (l : List Text) → is_in name l ≡ true → 0 < length l
unfolding is_in
not_empty name [] h = cc h
not_empty name (x ∷ l) h = omega arith

add_name-HasNames :
    (base name : Text) (k : ℕ) (names : List Text)
    → gnb_id_generator k base ≡ ok name
    → HasNames base k names
    → HasNames base (k + 1) (add_name name names)
add_name-HasNames base name k names e (h, l) = (
  λ j b. elim (Bool-cases (j == k)) [
    | inl z ↦
        let same : k ≡ j = ground arith in
        (
          name,
          subst (λ (x : ℕ). gnb_id_generator x base ≡ ok name) same e,
          is_in-add_name name names,
        )
    | inr z ↦ let (n, x, y) = h j (ground arith) in (n, x, is_in-add_name_other n name names y)
  ],
  omega (arith, length-add_name name names),
)

create_from-HasNames :
    (net : Net) (base : Text) (n k : ℕ) (cfg : GnbConfig) (s t : List GnbConfig × List Text)
    → gnb_id_generator k base ≡ ok cfg.gnb_id
    → HasNames base k s.1
    → create_from net base n (k + 1) cfg s ≡ ok t
    → HasNames base (k + n) t.1
unfolding create_from
create_from-HasNames net base zero k cfg s t e h c =
    let same : s ≡ t = cc c in
    let end : k ≡ k + 0 = omega arith in
    subst (λ (x : ℕ). HasNames base x t.1) end
      (subst (λ (x : List GnbConfig × List Text). HasNames base k x.1) same h)
create_from-HasNames net base (suc n) k cfg s t e h c =
    let (next, x, c1) = >>=-eq-ok (gnb_id_generator (k + 1) base) _ c in
    let (n2, y, c2) = >>=-eq-ok (or_fatal (increment_ip net cfg.n2_ip all_addresses)) _ c1 in
    let (n3, z, c3) = >>=-eq-ok (or_fatal (increment_ip net cfg.n3_ip all_addresses)) _ c2 in
    let rest =
      create_from-HasNames net base n (k + 1) _ (cfg ∷ s.0, add_name cfg.gnb_id s.1) t x
        (add_name-HasNames base cfg.gnb_id k s.1 e h) c3 in
    let sum : k + 1 + n ≡ k + suc n = omega arith in subst (λ (x : ℕ). HasNames base x t.1) sum rest

-- If the configured id of a gNodeB is spelled as `gnbIdGenerator` spells it, every gNodeB that a
-- scenario looks up among those that `CreateGnbs` has created is there, for every UE and every number
-- of handovers, if there is one at all.
pub gnb_at-create_gnbs :
    (net : Net) (count : ℕ) (cfg : GnbConfig) (created : List GnbConfig) (c : SimConfig)
    → gnb_id_generator 0 cfg.gnb_id ≡ ok cfg.gnb_id
    → 0 < count
    → create_gnbs net count cfg ≡ ok (created, c.gnbs)
    → c.gnb_id ≡ cfg.gnb_id
    → (index : ℕ) → (name : Text) × (gnb_at c index ≡ ok name) × (is_in name c.gnbs ≡ true)
unfolding create_gnbs gnb_at gnb_id_gen
gnb_at-create_gnbs net count cfg created c e one h same index =
    let (named, few) =
      create_from-HasNames net cfg.gnb_id count 0 cfg ([], []) (created, c.gnbs) e
        ((λ j b. absurd (omega arith)), omega arith) h in
    let (first, _, there) = named 0 (omega arith) in
    let some_gnbs = not_empty first c.gnbs there in
    let small = mod-lt (c.ue_id + index) some_gnbs in
    let (name, x, y) = named ((c.ue_id + index) % length c.gnbs) (omega arith) in
    let nonzero : (length c.gnbs == 0) ≡ false = ground arith in
    (name, rw (nonzero, same, x, y) refl, y)
