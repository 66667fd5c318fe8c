-- ===== src/Ue/Auth.antt =====
-- Keys and authentication: `deriveAUTN`, `DeriveRESstarAndSetKey`, `DerivateKamf`, `DerivateAlgKey`
-- and `deriveSNN` of PacketRusher/internal/control_test_engine/ue/context/context.go, and
-- PacketRusher/internal/common/auth.
pub mod Replay
pub mod Algorithms
use g_cn_testbed_k8s.Base.{
  take, drop, ℕ, zero, suc, ◌+◌, ◌/◌, Bool, true, false, not, ◌&&◌, ◌||◌, List, [], ◌∷◌, ◌++◌,
  Option, none, some, Text, codes, hex_decode, Result, ok, fatal, panic, ◌>>=◌, ◌>>◌, or_panic,
  fatal_if, bit_xor, ltb, leb, ◌==◌, if◌then◌else◌, text_eq, replicate, length,
}
use g_cn_testbed_k8s.Ue.State.{Ue, Security, Subscription}

-- What a key is derived for: the FC values of TS 33.501 and TS 33.220.
pub data Purpose : Type 0 where
  for_res_star for_kausf for_kseaf for_kamf for_algorithm_key : Purpose

-- The results of the functions f2 to f5 and f5* of Milenage.
pub record Milenage : Type 0 where
  pub res : List ℕ
  pub ck : List ℕ
  pub ik : List ℕ
  pub ak : List ℕ
  pub ak_star : List ℕ

-- The libraries behind authentication. `f1` gives MAC-A and MAC-S; `kdf` derives a key from a key
-- for a purpose and its parameters.
pub record Crypto : Type 0 where
  pub f1 : (opc k rand sqn amf : List ℕ) → List ℕ × List ℕ
  pub f2345 : (opc k rand : List ℕ) → Milenage
  pub kdf : List ℕ → Purpose → List (List ℕ) → Option (List ℕ)

-- `make([]byte, n)` filled by `out[i] = xs[i] ^ ys[i]` over the indices of `xs`.
unfoldable pub xor_into : ℕ → List ℕ → List ℕ → Result (List ℕ)
xor_into n [] ys = ok (replicate n 0)
xor_into (suc n) (x ∷ xs) (y ∷ ys) = xor_into n xs ys >>= λ r. ok (bit_xor x y ∷ r)
xor_into _ _ _ = panic

-- `deriveAUTN`: the sequence number, the AMF and the MAC.
unfoldable pub derive_autn : List ℕ → List ℕ → Result (List ℕ × List ℕ × List ℕ)
unfolding xor_into
derive_autn autn ak =
    xor_into 6 (take 6 autn) ak >>= λ sqn. ok (sqn, take 2 (drop 6 autn), drop 8 autn)

-- `bytes.Compare(a, b) > 0`
unfoldable pub bytes_greater : List ℕ → List ℕ → Bool
bytes_greater [] ys = false
bytes_greater (x ∷ xs) [] = true
bytes_greater (x ∷ xs) (y ∷ ys) = let rest = bytes_greater xs ys in if x == y then rest else ltb y x

-- `hex.DecodeString` with `log.Fatal` on an error.
unfoldable pub hex_or_fatal : Text → Result (List ℕ)
hex_or_fatal s = let (bytes, good) = hex_decode s in if good then ok bytes else fatal

abbrev pub or_fatal {ℓ} : {A : Type ℓ} → Option A → Result A
or_fatal none = fatal
or_fatal (some a) = ok a

abbrev is_digit : ℕ → Bool
is_digit c = leb b'0' c && leb c b'9'

-- The digits at the start of a text, at most n.
unfoldable pub leading_digits : ℕ → Text → Text
leading_digits zero s = []
leading_digits n [] = []
leading_digits (suc n) (c ∷ s) =
    let rest = leading_digits n s in if is_digit c then c ∷ rest else []

abbrev is_prefix : Text → Bool
is_prefix p = text_eq p (codes "imsi-") || text_eq p (codes "supi-")

-- The group of the first match of `(?:imsi|supi)-([0-9]{5,15})`.
unfoldable pub supi_digits : Text → Option Text
unfolding leading_digits
supi_digits [] = none
supi_digits (c ∷ s) =
    let rest = supi_digits s in
    let digits = leading_digits 15 (drop 5 (c ∷ s)) in
    if is_prefix (take 5 (c ∷ s)) && leb 5 (length digits) then some digits else rest

abbrev pub set_kamf : Ue → List ℕ → Ue
set_kamf ue k = record ue { security = record ue.security { kamf = k } }

-- How an authentication request is judged.
pub data Check : Type 0 where
  mac_failure sqn_failure successful : Check

-- `deriveSNN`
unfoldable pub derive_snn : Ue → Text
derive_snn ue =
    (if length ue.amf_mnc == 2 then codes "5G:mnc0" else codes "5G:mnc")
    ++ (ue.amf_mnc ++ (codes ".mcc" ++ (ue.amf_mcc ++ codes ".3gppnetwork.org")))

-- `SetAmfMccAndMnc`
unfoldable pub set_amf_mcc_and_mnc : Ue → Text → Text → Ue
unfolding derive_snn
set_amf_mcc_and_mnc ue mcc mnc =
    let u = record ue { amf_mcc = mcc; amf_mnc = mnc } in
    record u { security = record u.security { snn = derive_snn u } }

module _ (crypto : Crypto) where
  -- `DerivateKamf`
  unfoldable pub derivate_kamf : Ue → List ℕ → Text → List ℕ → List ℕ → Result Ue
  unfolding xor_into supi_digits
  derivate_kamf ue key sn_name sqn ak = do
    sqn_xor_ak ← xor_into 6 sqn ak
    kausf ← or_fatal (crypto.kdf key for_kausf (sn_name ∷ sqn_xor_ak ∷ []))
    kseaf ← or_fatal (crypto.kdf kausf for_kseaf (sn_name ∷ []))
    digits ← or_panic (supi_digits ue.security.supi)
    kamf ← or_fatal (crypto.kdf kseaf for_kamf (digits ∷ (0 ∷ 0 ∷ []) ∷ []))
    ok (set_kamf ue kamf)

  -- The end of `DeriveRESstarAndSetKey`: the key is set, and RES* is the second half.
  unfoldable pub set_key : Ue → Milenage → Text → List ℕ → List ℕ → Result (Ue × List ℕ × Check)
  unfolding derivate_kamf
  set_key ue m sn_name rand sqn_hn = do
    ue' ← derivate_kamf ue (m.ck ++ m.ik) sn_name sqn_hn m.ak
    kdf_val ← or_fatal (crypto.kdf (m.ck ++ m.ik) for_res_star (sn_name ∷ rand ∷ m.res ∷ []))
    ok (ue', drop (length kdf_val / 2) kdf_val, successful)

  -- `DeriveRESstarAndSetKey`. The new sequence number is written to `authSubs`, a copy of the
  -- subscription, which is gone when the function returns.
  unfoldable pub derive_res_star_and_set_key :
      Ue → Subscription → List ℕ → Text → List ℕ → Result (Ue × List ℕ × Check)
  unfolding derive_autn xor_into bytes_greater hex_or_fatal set_key
  derive_res_star_and_set_key ue auth_subs rand sn_name autn = do
    opc ← hex_or_fatal auth_subs.opc
    k ← hex_or_fatal auth_subs.permanent_key
    sqn_ue ← hex_or_fatal auth_subs.sequence_number
    amf ← hex_or_fatal auth_subs.amf
    let m = crypto.f2345 opc k rand
    (sqn_hn, _, mac_a_hn) ← derive_autn autn m.ak
    (if not (text_eq (crypto.f1 opc k rand sqn_hn amf).0 mac_a_hn)
        then ok (ue, [], mac_failure)
        else if bytes_greater sqn_ue sqn_hn
        then (xor_into 6 sqn_ue m.ak_star >>= λ x.
            ok (ue, x ++ (crypto.f1 opc k rand sqn_ue (0 ∷ 0 ∷ [])).1, sqn_failure))
        else set_key ue m sn_name rand sqn_hn)

  -- `kdf[16:32]`
  abbrev upper_half : List ℕ → Result (List ℕ)
  upper_half k = if leb 32 (length k) then ok (take 16 (drop 16 k)) else panic

  abbrev set_knas_enc : Ue → List ℕ → Ue
  set_knas_enc ue k = record ue { security = record ue.security { knas_enc = k } }

  abbrev set_knas_int : Ue → List ℕ → Ue
  set_knas_int ue k = record ue { security = record ue.security { knas_int = k } }

  -- `DerivateAlgKey` with `AlgorithmKeyDerivation`; an error is only logged.
  unfoldable pub derivate_alg_key : Ue → Result Ue
  derivate_alg_key ue =
      elim (crypto.kdf ue.security.kamf for_algorithm_key
        ((1 ∷ []) ∷ (ue.security.ciphering_alg ∷ []) ∷ [])) [
          | none ↦ ok ue
          | some kenc ↦ upper_half kenc >>= λ enc.
              elim (crypto.kdf ue.security.kamf for_algorithm_key
                ((2 ∷ []) ∷ (ue.security.integrity_alg ∷ []) ∷ [])) [
                  | none ↦ ok (set_knas_enc ue enc)
                  | some kint ↦
                      upper_half kint >>= λ int. ok (set_knas_int (set_knas_enc ue enc) int)
                ]
        ]

-- The eight bits of the UE security capability that are read.
pub record Capability : Type 0 where
  pub ia0 : Bool
  pub ia1 : Bool
  pub ia2 : Bool
  pub ia3 : Bool
  pub ea0 : Bool
  pub ea1 : Bool
  pub ea2 : Bool
  pub ea3 : Bool

-- `SelectAlgorithms`: the algorithm of integrity and that of ciphering.
unfoldable pub select_algorithms : Capability → ℕ × ℕ
select_algorithms c = (
  if c.ia0 then 0 else if c.ia1 then 1 else if c.ia2 then 2 else if c.ia3 then 3 else 0,
  if c.ea0 then 0 else if c.ea1 then 1 else if c.ea2 then 2 else if c.ea3 then 3 else 0,
)
