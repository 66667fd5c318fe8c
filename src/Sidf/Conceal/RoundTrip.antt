-- ===== src/Sidf/Conceal/RoundTrip.antt =====
-- `ToSupi` of the SUCI that `CipherSuci` makes.
use g_cn_testbed_k8s.Base.{
  ℕ, suc, ◌+◌, ◌<◌, ◌≤◌, ◌≡◌, refl, ap, ◌∙◌, false, List, [], ◌∷◌, ◌++◌, Option, some, Text, codes,
  Result, ok, arith, length, ltb, text_eq,
}
use g_cn_testbed_k8s.Strconv.{has_prefix}
use g_cn_testbed_k8s.Strconv.Digits.{Digits, print}
use g_cn_testbed_k8s.Plmn.{hex_encode}
use g_cn_testbed_k8s.Sidf.Suci.{Suci}
use g_cn_testbed_k8s.Sidf.Suci.Fields.{Hex, digit-is_hex}
use g_cn_testbed_k8s.Sidf.Suci.KeyId.{Between, IsKeyId}
use g_cn_testbed_k8s.Sidf.Suci.Reading.{Parts, IsParts, text, type_of, parse_suci-suci_text}
use g_cn_testbed_k8s.Sidf.Ecies.{Crypto}
use g_cn_testbed_k8s.Sidf.Ecies.Hexadecimal.{encode-Hex, length-encode}
use g_cn_testbed_k8s.Sidf.Ecies.Opening.{IsCrypto, profile_a_decrypt-encrypt}
use g_cn_testbed_k8s.Sidf.Conceal.{
  HomeNetworkPrivateKey, scheme_output, cipher_suci, reveal, find_profile, supi_of, to_supi,
}

-- Who a SUCI is made for, in digits.
pub record Subscriber : Type 0 where
  pub mcc : List ℕ
  pub mnc : List ℕ
  pub msin : List ℕ
  pub indicator : List ℕ
  pub key_id : List ℕ

abbrev pub IsSubscriber : Subscriber → Type 0
IsSubscriber u =
    Between 3 3 u.mcc
    × Between 2 3 u.mnc
    × Digits u.msin
    × Between 1 4 u.indicator
    × IsKeyId u.key_id
    × (14 ≤ length u.msin + length u.mcc + length u.mnc)

abbrev pub supi : Subscriber → Text
supi u = codes "imsi-" ++ ((print u.mcc ++ print u.mnc) ++ print u.msin)

abbrev parts : Subscriber → ℕ → Text → Parts
parts u scheme output = record {
  mcc = u.mcc;
  mnc = u.mnc;
  indicator = u.indicator;
  scheme = scheme;
  key_id = u.key_id;
  output = output;
}

-- `CipherSuci` for a subscriber.
abbrev pub conceal :
    Crypto
    → (generated : Option (List ℕ)) → Subscriber
    → (scheme : ℕ) → (key : Option (List ℕ)) → Result (Option (Option Suci))
unfolding cipher_suci
conceal crypto generated u scheme key =
    cipher_suci crypto generated (print u.msin) (print u.mcc) (print u.mnc) (print u.indicator)
      (record {
        protection_scheme = print (scheme ∷ []);
        public_key = key;
        public_key_id = print u.key_id;
      })

length-print : (ds : List ℕ) → length (print ds) ≡ length ds
length-print [] = refl
length-print (d ∷ ds) = ap suc (length-print ds)

print-Hex : (ds : List ℕ) → Digits ds → Hex (print ds)
print-Hex [] h = tt
print-Hex (d ∷ ds) (h, hs) = (digit-is_hex d h, print-Hex ds hs)

long_enough :
    (u : Subscriber)
    → IsSubscriber u
    → ltb (length (print u.msin) + length (print u.mcc) + length (print u.mnc)) 14 ≡ false
long_enough u (_, _, _, _, _, l) =
    ground (arith, length-print u.msin, length-print u.mcc, length-print u.mnc)

-- What is read of the text that is written.
abbrev parsed : Subscriber → ℕ → Text → Suci
parsed u scheme output = record {
  supi_type = type_of (parts u scheme output);
  mcc = print u.mcc;
  mnc = print u.mnc;
  home_network_id = [];
  routing_indicator = print u.indicator;
  protection_scheme = print (scheme ∷ []);
  public_key_id = print u.key_id;
  scheme_output = output;
  raw = text (parts u scheme output);
}

module _ (u : Subscriber) (proper : IsSubscriber u) (scheme : ℕ) (known : scheme < 3)
    (output : Text) (hex : Hex output) (some_output : 1 ≤ length output) where
  parts-IsParts : IsParts (parts u scheme output)
  parts-IsParts = let (c, n, _, i, k, _) = proper in (c, n, i, known, k, hex, some_output)

  pub conceal-parsed :
      (crypto : Crypto) (generated key : Option (List ℕ))
      → scheme_output crypto generated (print u.msin) (record {
        protection_scheme = print (scheme ∷ []);
        public_key = key;
        public_key_id = print u.key_id;
      })
        ≡ ok (some output)
      → conceal crypto generated u scheme key ≡ ok (some (some (parsed u scheme output)))
  unfolding cipher_suci
  conceal-parsed crypto generated key e =
      rw (long_enough u proper, e, parse_suci-suci_text (parts u scheme output) parts-IsParts) refl

  to_supi-parsed :
      (crypto : Crypto) (profiles : List HomeNetworkPrivateKey)
      → to_supi crypto (parsed u scheme output).raw profiles
        ≡ supi_of crypto (parsed u scheme output) profiles
  unfolding to_supi
  to_supi-parsed crypto profiles =
      rw (parse_suci-suci_text (parts u scheme output) parts-IsParts, to_supi) refl

-- A subscriber with an MSIN that is not empty, and with at least 14 digits of MSIN, MCC and MNC, is
-- given a SUCI in the null scheme, and `ToSupi` of its text is "imsi-" with MCC, MNC and MSIN,
-- whatever the profiles are.
pub to_supi-conceal_null :
    (crypto : Crypto) (generated key : Option (List ℕ)) (u : Subscriber)
    → IsSubscriber u
    → 1 ≤ length u.msin
    → (profiles : List HomeNetworkPrivateKey)
    → (suci : Suci) × (conceal crypto generated u 0 key ≡ ok (some (some suci)))
      × (to_supi crypto suci.raw profiles ≡ ok (some (supi u)))
unfolding scheme_output supi_of text_eq has_prefix
to_supi-conceal_null crypto generated key u proper l profiles =
    let hex = print-Hex u.msin proper.2 in
    let long : 1 ≤ length (print u.msin) = omega (arith, length-print u.msin) in
    (
      parsed u 0 (print u.msin),
      conceal-parsed u proper 0 (omega arith) (print u.msin) hex long crypto generated key refl,
      to_supi-parsed u proper 0 (omega arith) (print u.msin) hex long crypto profiles,
    )

-- A subscriber with an MSIN that is not empty, and with at least 14 digits of MSIN, MCC and MNC, is
-- given a SUCI under Profile A, where the ephemeral private key gives a shared key with the public key
-- of the home network and the crypto packages are `IsCrypto`; if the key id stands for the profile of
-- the home network's private key, `ToSupi` of the text is "imsi-" with MCC, MNC and MSIN.
pub to_supi-conceal_profile_a :
    (crypto : Crypto)
    → IsCrypto crypto
    → (private home shared : List ℕ)
    → crypto.x25519.ecdh private (crypto.x25519.public home) ≡ some shared
    → (u : Subscriber) → IsSubscriber u
    → 1 ≤ length u.msin
    → (profiles : List HomeNetworkPrivateKey)
    → find_profile crypto (print u.key_id) profiles
      ≡ ok (some (record { protection_scheme = codes "1"; private_key = some home }))
    → (suci : Suci) × (conceal crypto (some private) u 1 (some (crypto.x25519.public home))
        ≡ ok (some (some suci)))
      × (to_supi crypto suci.raw profiles ≡ ok (some (supi u)))
unfolding scheme_output supi_of reveal text_eq has_prefix
to_supi-conceal_profile_a crypto laws private home shared e u proper l profiles f =
    let (output, c, back, o, some_output) =
      profile_a_decrypt-encrypt crypto laws private home shared e u.msin proper.2 l in
    let hex = encode-Hex output o in
    let long : 1 ≤ length (hex_encode output) = omega (arith, length-encode output) in
    (
      parsed u 1 (hex_encode output),
      conceal-parsed u proper 1 (omega arith) (hex_encode output) hex long crypto (some private)
          (some (crypto.x25519.public home)) c,
      to_supi-parsed u proper 1 (omega arith) (hex_encode output) hex long crypto profiles
          ∙ rw (f, back) refl,
    )
