-- ===== src/Ue/Auth/Algorithms.antt =====
-- The algorithms that `SelectAlgorithms` of PacketRusher/internal/common/auth picks.
use g_cn_testbed_k8s.Base.{
  ℕ, ◌≤◌, ◌≡◌, refl, Bool, true, false, List, [], ◌∷◌, some, arith, get_elem?, if◌then◌else◌, zero,
  suc,
}
use g_cn_testbed_k8s.Ue.Auth.{Capability, select_algorithms}

-- The bits of integrity and those of ciphering, by the number of the algorithm.
abbrev pub integrity_bits : Capability → List Bool
integrity_bits c = c.ia0 ∷ c.ia1 ∷ c.ia2 ∷ c.ia3 ∷ []

abbrev pub ciphering_bits : Capability → List Bool
ciphering_bits c = c.ea0 ∷ c.ea1 ∷ c.ea2 ∷ c.ea3 ∷ []

-- The algorithm is supported, and no smaller one is.
pub record IsLowest (bits : List Bool) (alg : ℕ) : Type 0 where
  pub supported : get_elem? bits alg ≡ some true
  pub lowest : (j : ℕ) → get_elem? bits j ≡ some true → alg ≤ j

abbrev first_of : Bool → Bool → Bool → Bool → ℕ
first_of a b c d = if a then 0 else if b then 1 else if c then 2 else if d then 3 else 0

first_of-IsLowest :
    (a b c d : Bool) (k : ℕ)
    → get_elem? (a ∷ b ∷ c ∷ d ∷ []) k ≡ some true
    → IsLowest (a ∷ b ∷ c ∷ d ∷ []) (first_of a b c d)
first_of-IsLowest true b c d k h = record { supported = refl; lowest = λ j e. ground arith }
first_of-IsLowest false true c d k h = record { supported = refl; lowest = from_1 }
  where
    from_1 : (j : ℕ) → get_elem? (false ∷ true ∷ c ∷ d ∷ []) j ≡ some true → 1 ≤ j
    from_1 zero e = absurd (ground arith)
    from_1 (suc j) e = ground arith
first_of-IsLowest false false true d k h = record { supported = refl; lowest = from_2 }
  where
    from_2 : (j : ℕ) → get_elem? (false ∷ false ∷ true ∷ d ∷ []) j ≡ some true → 2 ≤ j
    from_2 zero e = absurd (ground arith)
    from_2 (suc zero) e = absurd (ground arith)
    from_2 (suc (suc j)) e = ground arith
first_of-IsLowest false false false true k h = record { supported = refl; lowest = from_3 }
  where
    from_3 : (j : ℕ) → get_elem? (false ∷ false ∷ false ∷ true ∷ []) j ≡ some true → 3 ≤ j
    from_3 zero e = absurd (ground arith)
    from_3 (suc zero) e = absurd (ground arith)
    from_3 (suc (suc zero)) e = absurd (ground arith)
    from_3 (suc (suc (suc j))) e = ground arith
first_of-IsLowest false false false false zero h = absurd (ground arith)
first_of-IsLowest false false false false (suc zero) h = absurd (ground arith)
first_of-IsLowest false false false false (suc (suc zero)) h = absurd (ground arith)
first_of-IsLowest false false false false (suc (suc (suc zero))) h = absurd (ground arith)
first_of-IsLowest false false false false (suc (suc (suc (suc k)))) h = absurd (ground arith)

-- Where the UE supports some algorithm of integrity, and some of ciphering, the two that are picked
-- are supported, and have the lowest numbers of those that are.
pub select-IsLowest :
    (c : Capability) (j k : ℕ)
    → get_elem? (integrity_bits c) j ≡ some true
    → get_elem? (ciphering_bits c) k ≡ some true
    → IsLowest (integrity_bits c) (select_algorithms c).0
      × IsLowest (ciphering_bits c) (select_algorithms c).1
unfolding select_algorithms
select-IsLowest c j k i e =
    (first_of-IsLowest c.ia0 c.ia1 c.ia2 c.ia3 j i, first_of-IsLowest c.ea0 c.ea1 c.ea2 c.ea3 k e)
