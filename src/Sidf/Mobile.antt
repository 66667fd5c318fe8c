-- ===== src/Sidf/Mobile.antt =====
-- The SUCI as a mobile identity in octets: `EncodeSuci` of
-- PacketRusher/internal/control_test_engine/ue/context/context.go.
pub mod Layout
use g_cn_testbed_k8s.Base.{
  ℕ, zero, suc, ◌+◌, ◌-◌, ◌*◌, Bool, true, false, ◌&&◌, not, List, [], ◌∷◌, Option, none, some,
  Text, Result, ok, fatal, panic, ◌>>=◌, hex_decode, length, replicate, ltb, leb, ◌==◌,
  if◌then◌else◌,
}
use g_cn_testbed_k8s.Plmn.{ue_mcc_and_mnc_in_octets, routing_indicator_in_octets}
use g_cn_testbed_k8s.Sidf.Tbcd.{tbcd}
use g_cn_testbed_k8s.Sidf.Suci.{Suci}
use g_cn_testbed_k8s.Sidf.Ecies.{Crypto}
use g_cn_testbed_k8s.Sidf.Conceal.{HomeNetworkPublicKey, cipher_suci}

-- `strconv.ParseUint(s, 10, 8)` without its error, from the number read so far: what is no number
-- gives 0, and what is too large gives 255, whichever is met first.
unfoldable pub parse_octet_from : Text → ℕ → ℕ
parse_octet_from [] n = n
parse_octet_from (c ∷ s) n =
    let rest = parse_octet_from s (n * 10 + (c - b'0')) in
    if not (leb b'0' c && leb c b'9')
    then 0
    else if ltb 255 (n * 10 + (c - b'0'))
    then 255
    else rest

unfoldable pub parse_octet : Text → ℕ
unfolding parse_octet_from
parse_octet s = parse_octet_from s 0

-- `copy(buffer[i:], xs)`
unfoldable pub copy_at : ℕ → List ℕ → List ℕ → List ℕ
copy_at zero [] buffer = buffer
copy_at zero (x ∷ xs) [] = []
copy_at zero (x ∷ xs) (b ∷ buffer) = x ∷ copy_at zero xs buffer
copy_at (suc i) xs [] = []
copy_at (suc i) xs (b ∷ buffer) = b ∷ copy_at i xs buffer

-- What the UE knows of itself.
pub record Identity : Type 0 where
  pub msin : Text
  pub mcc : Text
  pub mnc : Text
  pub routing_indicator : Text
  pub suci_public_key : HomeNetworkPublicKey

module _ (crypto : Crypto) where
  -- The output of the scheme as octets; the errors of `hex.DecodeString` are dropped.
  unfoldable pub output_octets : (generated : Option (List ℕ)) → Identity → Result (List ℕ)
  output_octets generated u =
      if parse_octet u.suci_public_key.protection_scheme == 0
      then (tbcd u.msin >>= λ t. ok (hex_decode t).0)
      else cipher_suci crypto generated u.msin u.mcc u.mnc u.routing_indicator u.suci_public_key
        >>= λ found. elim found [
          | none ↦ fatal
          | some none ↦ panic
          | some (some suci) ↦ ok (hex_decode suci.scheme_output).0
        ]

  -- `EncodeSuci`: the buffer, and the routing indicator that the UE keeps.
  unfoldable pub encode_suci : (generated : Option (List ℕ)) → Identity → Result (Text × List ℕ)
  unfolding output_octets copy_at
  encode_suci generated u = output_octets generated u >>= λ output.
      ue_mcc_and_mnc_in_octets u.mcc u.mnc >>= λ plmn.
      routing_indicator_in_octets u.routing_indicator >>= λ routing. ok (
        routing.0,
        copy_at 8 output (
            copy_at 6
              (parse_octet u.suci_public_key.protection_scheme
                ∷ parse_octet u.suci_public_key.public_key_id
                ∷ [])
              (copy_at 4 routing.1
                (copy_at 1 plmn (copy_at 0 (1 ∷ []) (replicate (8 + length output) 0))))),
      )
