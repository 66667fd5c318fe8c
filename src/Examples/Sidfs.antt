-- ===== src/Examples/Sidfs.antt =====
-- Examples for the concealment of SUPIs.
use g_cn_testbed_k8s.Base.{
  inl, inr, ℕ, zero, suc, ◌+◌, ◌-◌, ◌%◌, ap, ◌∙◌, ltb, ◌&&◌, ◌<◌, ◌≡◌, refl, Bool, true, List, [],
  ◌∷◌, none, some, codes, ok, arith, length, replicate, AreOctets,
}
use g_cn_testbed_k8s.Strconv.{atoi}
use g_cn_testbed_k8s.Strconv.Digits.{Digits}
use g_cn_testbed_k8s.Sidf.Suci.{Suci, parse_suci}
use g_cn_testbed_k8s.Sidf.Suci.Reading.{Parts, IsParts, text, parse_suci-suci_text}
use g_cn_testbed_k8s.Sidf.Ecies.{Curve, Crypto}
use g_cn_testbed_k8s.Sidf.Ecies.Opening.{IsCrypto}
use g_cn_testbed_k8s.Plmn.{hex_encode}
use g_cn_testbed_k8s.Sidf.Ecies.{profile_a_decrypt}
use g_cn_testbed_k8s.Sidf.Tbcd.{tbcd}
use g_cn_testbed_k8s.Sidf.Mobile.{encode_suci, parse_octet}
use g_cn_testbed_k8s.Sidf.Mobile.Layout.{
  identity, scheme_key, encode_suci-null, encode_suci-profile_a,
}
use g_cn_testbed_k8s.Sidf.Conceal.{HomeNetworkPrivateKey, find_profile, to_supi}
use g_cn_testbed_k8s.Sidf.Conceal.RoundTrip.{
  Subscriber, IsSubscriber, conceal, to_supi-conceal_null, to_supi-conceal_profile_a,
}

-- A curve on which a key is known by its length and the shared key is the sum of both, and a cipher that
-- takes the complement of each octet.
abbrev head : List ℕ → ℕ
head [] = 0
head (a ∷ l) = a

abbrev curve : Curve
curve = record {
  public = λ k. replicate 32 (length k % 256);
  new_public_key = λ p. true;
  ecdh = λ k p. some ((length k % 256 + head p) ∷ []);
}

abbrev complement : List ℕ → List ℕ
complement [] = []
complement (a ∷ l) = (255 - a) ∷ complement l

abbrev crypto : Crypto
crypto = record {
  x25519 = curve;
  p256 = curve;
  unmarshal = λ k. some k;
  unmarshal_compressed = λ k. some k;
  marshal = λ k. k;
  marshal_compressed = λ k. k;
  sha256 = λ m. replicate 32 (length m % 256);
  hmac_sha256 = λ k m. replicate 32 (head m % 256);
  ctr = λ key icb m. some (complement m);
}

length-replicate : (n a : ℕ) → length (replicate n a) ≡ n
length-replicate zero a = refl
length-replicate (suc n) a = ap suc (length-replicate n a)

replicate-AreOctets : (n a : ℕ) → a < 256 → AreOctets (replicate n a)
replicate-AreOctets zero a h = tt
replicate-AreOctets (suc n) a h = (h, replicate-AreOctets n a h)

complement_twice : (l : List ℕ) → AreOctets l → complement (complement l) ≡ l
complement_twice [] h = refl
complement_twice (a ∷ l) (h, hs) =
    let same : 255 - (255 - a) ≡ a = omega arith in rw (same, complement_twice l hs)

complement-AreOctets : (l : List ℕ) → AreOctets (complement l)
complement-AreOctets [] = tt
complement-AreOctets (a ∷ l) = (omega arith, complement-AreOctets l)

shared_both :
    (a b s : List ℕ)
    → curve.ecdh a (curve.public b) ≡ some s
    → curve.ecdh b (curve.public a) ≡ some s
shared_both a b s h =
    let swap : length b % 256 + length a % 256 ≡ length a % 256 + length b % 256 = omega arith in
    ap (λ (n : ℕ). some (n ∷ [])) swap ∙ h

crypto-IsCrypto : IsCrypto crypto
crypto-IsCrypto = (
  (
    shared_both,
    λ a. refl,
    λ a. length-replicate 32 (length a % 256),
    λ a. replicate-AreOctets 32 (length a % 256) (omega arith),
  ),
  λ m. length-replicate 32 (length m % 256),
  λ k m. length-replicate 32 (head m % 256),
  λ k m. replicate-AreOctets 32 (head m % 256) (omega arith),
  λ key icb m l o. (complement m, refl, ap some (complement_twice m o), complement-AreOctets m),
)

-- The MSIN 0000000123 in the network 208 93.
abbrev somebody : Subscriber
somebody = record {
  mcc = 2 ∷ 0 ∷ 8 ∷ [];
  mnc = 9 ∷ 3 ∷ [];
  msin = 0 ∷ 0 ∷ 0 ∷ 0 ∷ 0 ∷ 0 ∷ 0 ∷ 1 ∷ 2 ∷ 3 ∷ [];
  indicator = 0 ∷ [];
  key_id = 1 ∷ [];
}

abbrev all_digits : List ℕ → Bool
all_digits [] = true
all_digits (d ∷ ds) = ltb d 10 && all_digits ds

all_digits-Digits : (ds : List ℕ) → all_digits ds ≡ true → Digits ds
all_digits-Digits [] h = tt
all_digits-Digits (d ∷ ds) h = (ground arith, all_digits-Digits ds (ground arith))

somebody-IsSubscriber : IsSubscriber somebody
somebody-IsSubscriber = (
  (all_digits-Digits somebody.mcc refl, omega arith, omega arith),
  (all_digits-Digits somebody.mnc refl, omega arith, omega arith),
  all_digits-Digits somebody.msin refl,
  (all_digits-Digits somebody.indicator refl, omega arith, omega arith),
  inl (all_digits-Digits somebody.key_id refl, omega arith, omega arith),
  omega arith,
)

abbrev profiles : List HomeNetworkPrivateKey
profiles = record { protection_scheme = codes "1"; private_key = some (5 ∷ []) } ∷ []

profile_found :
    find_profile crypto (codes "1") profiles
    ≡ ok (some (record { protection_scheme = codes "1"; private_key = some (5 ∷ []) }))
unfolding find_profile atoi
profile_found = refl

to_supi-conceal_null_example :
    (suci : Suci) × (conceal crypto none somebody 0 none ≡ ok (some (some suci)))
    × (to_supi crypto suci.raw [] ≡ ok (some (codes "imsi-208930000000123")))
to_supi-conceal_null_example =
    to_supi-conceal_null crypto none none somebody somebody-IsSubscriber (omega arith) []

to_supi-conceal_profile_a_example :
    (suci : Suci) × (conceal crypto (some (4 ∷ 4 ∷ [])) somebody 1 (some (curve.public (5 ∷ [])))
      ≡ ok (some (some suci)))
    × (to_supi crypto suci.raw profiles ≡ ok (some (codes "imsi-208930000000123")))
to_supi-conceal_profile_a_example =
    to_supi-conceal_profile_a crypto crypto-IsCrypto (4 ∷ 4 ∷ []) (5 ∷ []) (3 ∷ []) refl somebody
      somebody-IsSubscriber (omega arith) profiles profile_found

abbrev some_parts : Parts
some_parts = record {
  mcc = 2 ∷ 0 ∷ 8 ∷ [];
  mnc = 9 ∷ 3 ∷ [];
  indicator = 0 ∷ [];
  scheme = 0;
  key_id = 2 ∷ 5 ∷ 4 ∷ [];
  output = codes "0f";
}

some_parts-IsParts : IsParts some_parts
some_parts-IsParts = (
  (all_digits-Digits some_parts.mcc refl, omega arith, omega arith),
  (all_digits-Digits some_parts.mnc refl, omega arith, omega arith),
  (all_digits-Digits some_parts.indicator refl, omega arith, omega arith),
  omega arith,
  inr (
    (all_digits-Digits some_parts.key_id refl, omega arith, omega arith),
    omega arith,
    omega arith,
  ),
  (refl, (refl, tt)),
  omega arith,
)

parse_suci-suci_text_example :
    parse_suci (text some_parts)
    ≡ some (record {
      supi_type = codes "0-208-93";
      mcc = codes "208";
      mnc = codes "93";
      home_network_id = [];
      routing_indicator = codes "0";
      protection_scheme = codes "0";
      public_key_id = codes "254";
      scheme_output = codes "0f";
      raw = codes "suci-0-208-93-0-0-254-0f";
    })
parse_suci-suci_text_example = parse_suci-suci_text some_parts some_parts-IsParts

-- 208 93, the routing indicator 0, the null scheme, the key 1 and the MSIN 123.
encode_suci-null_example :
    (output : List ℕ) × (encode_suci crypto none
        (identity (2 ∷ 0 ∷ 8 ∷ []) (9 ∷ 3 ∷ []) (0 ∷ []) (codes "123") (scheme_key 0 none (1 ∷ [])))
      ≡ ok (codes "0", 1 ∷ 2 ∷ 248 ∷ 57 ∷ 240 ∷ 255 ∷ 0 ∷ 1 ∷ output))
    × (tbcd (hex_encode output) ≡ ok (codes "123"))
unfolding parse_octet
encode_suci-null_example =
    encode_suci-null crypto none none (2 ∷ 0 ∷ 8 ∷ []) (9 ∷ 3 ∷ []) (0 ∷ []) (1 ∷ [])
      (all_digits-Digits (2 ∷ 0 ∷ 8 ∷ []) refl) (all_digits-Digits (9 ∷ 3 ∷ []) refl)
      (all_digits-Digits (0 ∷ []) refl) (omega arith) 1 (2 ∷ 3 ∷ [])
      (all_digits-Digits (1 ∷ 2 ∷ 3 ∷ []) refl)

encode_suci-profile_a_example :
    (output : List ℕ) × (encode_suci crypto (some (4 ∷ 4 ∷ [])) (
        identity somebody.mcc somebody.mnc somebody.indicator
          (codes "0000000123")
          (scheme_key 1 (some (curve.public (5 ∷ []))) somebody.key_id))
      ≡ ok (codes "0", 1 ∷ 2 ∷ 248 ∷ 57 ∷ 240 ∷ 255 ∷ 1 ∷ 1 ∷ output))
    × (profile_a_decrypt crypto (hex_encode output) (some (5 ∷ []))
        ≡ ok (some (codes "0000000123")))
unfolding parse_octet
encode_suci-profile_a_example =
    encode_suci-profile_a crypto crypto-IsCrypto (4 ∷ 4 ∷ []) (5 ∷ []) (3 ∷ []) refl somebody
      somebody-IsSubscriber (all_digits-Digits (2 ∷ 0 ∷ 8 ∷ []) refl)
      (all_digits-Digits (9 ∷ 3 ∷ []) refl) (omega arith)
