-- ===== src/Scenario/Gnbs/Addresses.antt =====
-- The addresses that are counted up.
use g_cn_testbed_k8s.Base.{
  ℕ, ◌+◌, ◌*◌, ◌%◌, ◌^◌, ◌<◌, ◌≡◌, refl, sym, subst, ap, Bool, Bool-cases, inl, inr, true, false,
  List, [], ◌∷◌, arith, length, AreOctets, ◌==◌, if◌then◌else◌,
}
use native.Mathlib.Nat.{add-mul}
use g_cn_testbed_k8s.Ue.Auth.Replay.{value, pow_suc}
use g_cn_testbed_k8s.Scenario.Gnbs.{increment_octets}

length-increment_octets : (l : List ℕ) → length (increment_octets l).0 ≡ length l
unfolding increment_octets
length-increment_octets [] = refl
length-increment_octets (a ∷ l) = elim (Bool-cases (increment_octets l).1) [
  | inl e ↦ rw (e, length-increment_octets l) refl
  | inr e ↦ rw (e, length-increment_octets l) refl
]

-- An octet in front, where the rest stands for `v` and has been counted up.
with_octet :
    (a p v w : ℕ) (c : Bool)
    → a < 256
    → w + (if c then p else 0) ≡ v + 1
    → (if c then (a + 1) % 256 else a) * p
        + w
        + (if c then (if (a + 1) % 256 == 0 then 256 * p else 0) else 0)
      ≡ a * p + v + 1
with_octet a p v w false h e = omega arith
with_octet a p v w true h e = elim (Bool-cases (a == 255)) [
  | inl z ↦ let last : a ≡ 255 = ground arith in rw last (omega arith)
  | inr z ↦
      let next : (a + 1) % 256 ≡ a + 1 = ground arith in
      let more : ((a + 1) == 0) ≡ false = ground arith in
      rw (next, more) (omega (arith, add-mul a 1 p))
]

-- What a round does to an octet, by the carry.
abbrev counted : ℕ → List ℕ → Bool → List ℕ × Bool
counted a r c = if c then ((a + 1) % 256 ∷ r, (a + 1) % 256 == 0) else (a ∷ r, false)

counted_up :
    (a p v : ℕ) (r : List ℕ) (c : Bool)
    → a < 256
    → 256 ^ length r ≡ p
    → value r + (if c then p else 0) ≡ v + 1
    → value (counted a r c).0 + (if (counted a r c).1 then 256 * p else 0) ≡ a * p + v + 1
counted_up a p v r false h q e = rw q (with_octet a p v (value r) false h e)
counted_up a p v r true h q e = rw q (with_octet a p v (value r) true h e)

-- Octets are counted up as the number they stand for, the first the highest: the result is the next
-- number in as many octets, or 0 behind the last one, which the carry says.
pub increment_octets-value :
    (l : List ℕ)
    → AreOctets l
    → (value (increment_octets l).0 + (if (increment_octets l).1 then 256 ^ length l else 0)
        ≡ value l + 1)
      × (length (increment_octets l).0 ≡ length l)
unfolding increment_octets
increment_octets-value [] h = (refl, refl)
increment_octets-value (a ∷ l) (h, hs) =
    let (rest, _) = increment_octets-value l hs in
    (
      subst
          (λ (p : ℕ).
            value (counted a (increment_octets l).0 (increment_octets l).1).0
              + (if (counted a (increment_octets l).0 (increment_octets l).1).1 then p else 0)
            ≡ a * 256 ^ length l + value l + 1)
          (sym (pow_suc (length l)))
          (counted_up a (256 ^ length l) (value l) (increment_octets l).0 (increment_octets l).1 h
            (ap (λ (n : ℕ). 256 ^ n) (length-increment_octets l)) rest),
      length-increment_octets (a ∷ l),
    )
