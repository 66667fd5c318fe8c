-- ===== src/Scenario/Gnbs.antt =====
-- The gNodeBs of a scenario: `CreateGnbs` and `IncrementIP` of
-- PacketRusher/internal/common/tools/tools.go.
pub mod Addresses
pub mod Names
use g_cn_testbed_k8s.Base.{
  ℕ, zero, suc, ◌+◌, ◌%◌, Bool, true, false, List, [], ◌∷◌, Option, none, some, Text, codes, Result,
  ok, fatal, ◌>>=◌, ◌==◌, if◌then◌else◌,
}
use g_cn_testbed_k8s.Scenario.Msin.{gnb_id_generator}
use g_cn_testbed_k8s.Scenario.Simulation.{is_in}

-- What is used of the net package: `ParseIP`, `ParseCIDR` with `Contains`, and `String`; no address
-- is an empty list of octets.
pub record Net : Type 0 where
  pub parse_ip : Text → List ℕ
  pub parse_cidr : Text → Option (List ℕ → Bool)
  pub ip_string : List ℕ → Text

-- The loop of `IncrementIP`, from the last octet to the first that does not become 0; whether there
-- is none.
unfoldable pub increment_octets : List ℕ → List ℕ × Bool
increment_octets [] = ([], true)
increment_octets (a ∷ l) =
    let (r, carry) = increment_octets l in
    if carry then ((a + 1) % 256 ∷ r, (a + 1) % 256 == 0) else (a ∷ r, false)

-- `IncrementIP`; no value is an error.
unfoldable pub increment_ip : Net → Text → Text → Option Text
unfolding increment_octets
increment_ip net orig_ip cidr = elim (net.parse_cidr cidr) [
  | none ↦ none
  | some contains ↦
      let ip = (increment_octets (net.parse_ip orig_ip)).0 in
      if contains ip then some (net.ip_string ip) else none
]

-- A gNodeB that is started: its id and its addresses.
pub record GnbConfig : Type 0 where
  pub gnb_id : Text
  pub n2_ip : Text
  pub n3_ip : Text

-- `gnbs[id] = gnb.InitGnb(cfg, wg)`: the names of the map, the last new one in front.
unfoldable pub add_name : Text → List Text → List Text
unfolding is_in
add_name name names = if is_in name names then names else name ∷ names

-- `log.Fatal` on an error.
or_fatal : Option Text → Result Text
or_fatal none = fatal
or_fatal (some t) = ok t

abbrev all_addresses : Text
all_addresses = codes "0.0.0.0/0"

-- The rounds of the loop of `CreateGnbs` that are left, from round `i` on; what is started and the
-- names of the map.
unfoldable pub create_from :
    Net
    → (base : Text) → (left i : ℕ) → GnbConfig
    → List GnbConfig × List Text
    → Result (List GnbConfig × List Text)
unfolding add_name or_fatal
create_from net base zero i cfg s = ok s
create_from net base (suc n) i cfg s = gnb_id_generator i base >>= λ next.
    or_fatal (increment_ip net cfg.n2_ip all_addresses) >>= λ n2.
    or_fatal (increment_ip net cfg.n3_ip all_addresses) >>= λ n3.
    create_from net base n (i + 1) (record { gnb_id = next; n2_ip = n2; n3_ip = n3 })
      (cfg ∷ s.0, add_name cfg.gnb_id s.1)

-- `CreateGnbs`
unfoldable pub create_gnbs : Net → ℕ → GnbConfig → Result (List GnbConfig × List Text)
unfolding create_from
create_gnbs net count cfg = create_from net cfg.gnb_id count 1 cfg ([], [])
