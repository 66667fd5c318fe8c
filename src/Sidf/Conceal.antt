-- ===== src/Sidf/Conceal.antt =====
-- From a SUPI to a SUCI and back: `CipherSuci` and `ToSupi` of PacketRusher/internal/common/sidf.
pub mod RoundTrip
use g_cn_testbed_k8s.Base.{
  ℕ, ◌+◌, ◌-◌, Bool, true, false, ◌||◌, not, List, [], ◌∷◌, ◌++◌, Option, none, some, Text, codes,
  Result, ok, panic, ◌>>=◌, length, get_elem?, ltb, leb, ◌==◌, text_eq, if◌then◌else◌, or_panic,
}
use g_cn_testbed_k8s.Strconv.{atoi, has_prefix}
use g_cn_testbed_k8s.Sidf.Suci.{Suci, parse_suci, suci_text}
use g_cn_testbed_k8s.Sidf.Ecies.{
  Crypto, try, profile_a_encrypt, profile_b_encrypt, profile_a_decrypt, profile_b_decrypt,
}

pub record HomeNetworkPublicKey : Type 0 where
  pub protection_scheme : Text
  pub public_key : Option (List ℕ)
  pub public_key_id : Text

pub record HomeNetworkPrivateKey : Type 0 where
  pub protection_scheme : Text
  pub private_key : Option (List ℕ)

module _ (crypto : Crypto) where
  -- The scheme output, by the scheme of the profile.
  unfoldable pub scheme_output :
      (generated : Option (List ℕ)) → Text → HomeNetworkPublicKey → Result (Option Text)
  unfolding profile_a_encrypt profile_b_encrypt
  scheme_output generated msin profile =
      if text_eq profile.protection_scheme (codes "0")
      then ok (some msin)
      else if text_eq profile.protection_scheme (codes "1")
      then profile_a_encrypt crypto generated msin profile.public_key
      else if text_eq profile.protection_scheme (codes "2")
      then profile_b_encrypt crypto generated msin profile.public_key
      else ok none

  -- `CipherSuci`: no value is an error; the pointer that is returned without one may be nil.
  unfoldable pub cipher_suci :
      (generated : Option (List ℕ))
      → (msin mcc mnc routing_indicator : Text) → HomeNetworkPublicKey
      → Result (Option (Option Suci))
  unfolding scheme_output parse_suci
  cipher_suci generated msin mcc mnc routing_indicator profile =
      if ltb (length msin + length mcc + length mnc) 14
      then ok none
      else scheme_output generated msin profile >>= λ output. try output λ o. ok (
          some (
            parse_suci (
              suci_text mcc mnc routing_indicator profile.protection_scheme profile.public_key_id
                o)))

  -- The decryption by the profile of the key that the SUCI names.
  unfoldable pub reveal : Suci → HomeNetworkPrivateKey → Result (Option Text)
  unfolding profile_a_decrypt profile_b_decrypt
  reveal suci profile =
      if not (text_eq suci.protection_scheme profile.protection_scheme)
      then ok none
      else if text_eq suci.protection_scheme (codes "1")
      then profile_a_decrypt crypto suci.scheme_output profile.private_key
      else if text_eq suci.protection_scheme (codes "2")
      then profile_b_decrypt crypto suci.scheme_output profile.private_key
      else ok none

  -- The profile at the index, counted from 1, that a key id stands for.
  unfoldable pub find_profile :
      Text → List HomeNetworkPrivateKey → Result (Option HomeNetworkPrivateKey)
  find_profile key_id profiles = elim (atoi key_id) [
    | none ↦ ok none
    | some (negative, index) ↦
        if (negative || (index == 0 || ltb (length profiles) index))
        then ok none
        else or_panic (get_elem? profiles (index - 1)) >>= λ p. ok (some p)
  ]

  -- `ToSupi` of a SUCI that has been read.
  unfoldable pub supi_of : Suci → List HomeNetworkPrivateKey → Result (Option Text)
  unfolding reveal find_profile
  supi_of suci profiles =
      if not (has_prefix suci.supi_type (codes "0"))
      then ok none
      else if text_eq suci.protection_scheme (codes "0")
      then ok (some (codes "imsi-" ++ ((suci.mcc ++ suci.mnc) ++ suci.scheme_output)))
      else find_profile suci.public_key_id profiles >>= λ found. try found λ profile.
        reveal suci profile >>= λ result.
        try result λ r. ok (some (codes "imsi-" ++ ((suci.mcc ++ suci.mnc) ++ r)))

  -- `ToSupi`: what is no SUCI but a SUPI already is returned as it is.
  unfoldable pub to_supi : Text → List HomeNetworkPrivateKey → Result (Option Text)
  unfolding parse_suci supi_of
  to_supi suci profiles = elim (parse_suci suci) [
    | none ↦
        if has_prefix suci (codes "imsi-") || has_prefix suci (codes "nai-")
        then ok (some suci)
        else ok none
    | some parsed ↦ supi_of parsed profiles
  ]
