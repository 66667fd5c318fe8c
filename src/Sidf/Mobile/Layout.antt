-- ===== src/Sidf/Mobile/Layout.antt =====
-- The octets of a SUCI, and what is read of them.
use g_cn_testbed_k8s.Base.{
  ℕ, suc, ◌+◌, ◌≤◌, ◌≡◌, refl, ap, List, [], ◌∷◌, ◌++◌, Option, some, Text, ok, arith, length,
  replicate, text_eq,
}
use g_cn_testbed_k8s.Strconv.Digits.{Digits, print}
use g_cn_testbed_k8s.Plmn.{hex_encode}
use g_cn_testbed_k8s.Plmn.Octets.{IsMcc, IsMnc, nas_plmn, ue_octets-nas_plmn}
use g_cn_testbed_k8s.Plmn.Routing.{bcd, kept, routing-bcd}
use g_cn_testbed_k8s.Sidf.Tbcd.{tbcd}
use g_cn_testbed_k8s.Sidf.Tbcd.RoundTrip.{tbcd-tbcd}
use g_cn_testbed_k8s.Sidf.Ecies.{Crypto}
use g_cn_testbed_k8s.Sidf.Ecies.{profile_a_decrypt}
use g_cn_testbed_k8s.Sidf.Ecies.Hexadecimal.{decode-encode, encode-Hex, length-encode}
use g_cn_testbed_k8s.Sidf.Ecies.Opening.{IsCrypto, profile_a_decrypt-encrypt}
use g_cn_testbed_k8s.Sidf.Conceal.{HomeNetworkPublicKey, scheme_output, cipher_suci}
use g_cn_testbed_k8s.Sidf.Conceal.RoundTrip.{Subscriber, IsSubscriber, conceal-parsed}
use g_cn_testbed_k8s.Sidf.Mobile.{Identity, parse_octet, copy_at, output_octets, encode_suci}

copy-all : (xs : List ℕ) → copy_at 0 xs (replicate (length xs) 0) ≡ xs
unfolding copy_at
copy-all [] = refl
copy-all (x ∷ xs) = ap (λ (l : List ℕ). x ∷ l) (copy-all xs)

-- The copies fill the buffer.
filled :
    (a b c r s p k : ℕ) (output : List ℕ)
    → copy_at 8 output (
        copy_at 6 (p ∷ k ∷ []) (
          copy_at 4
            (r ∷ s ∷ [])
            (copy_at 1 (a ∷ b ∷ c ∷ []) (copy_at 0 (1 ∷ []) (replicate (8 + length output) 0)))))
      ≡ 1 ∷ a ∷ b ∷ c ∷ r ∷ s ∷ p ∷ k ∷ output
unfolding copy_at
filled a b c r s p k output =
    let eight : 8 + length output ≡ suc (suc (suc (suc (suc (suc (suc (suc (length output)))))))) =
      omega arith in
    rw (eight, copy-all output) refl

three_octets :
    (mcc mnc : List ℕ)
    → IsMcc mcc
    → IsMnc mnc
    → (a : ℕ) × (b : ℕ) × (c : ℕ) × (nas_plmn mcc mnc ≡ a ∷ b ∷ c ∷ [])
three_octets (m1 ∷ m2 ∷ m3 ∷ []) (n1 ∷ n2 ∷ []) h k = (_, _, _, refl)
three_octets (m1 ∷ m2 ∷ m3 ∷ []) (n1 ∷ n2 ∷ n3 ∷ []) h k = (_, _, _, refl)
three_octets (m1 ∷ m2 ∷ m3 ∷ []) [] h k = absurd k
three_octets (m1 ∷ m2 ∷ m3 ∷ []) (_ ∷ []) h k = absurd k
three_octets (m1 ∷ m2 ∷ m3 ∷ []) (_ ∷ _ ∷ _ ∷ _ ∷ _) h k = absurd k
three_octets [] mnc h k = absurd h
three_octets (_ ∷ []) mnc h k = absurd h
three_octets (_ ∷ _ ∷ []) mnc h k = absurd h
three_octets (_ ∷ _ ∷ _ ∷ _ ∷ _) mnc h k = absurd h

two_octets : (ds : List ℕ) → (r : ℕ) × (s : ℕ) × (bcd ds ≡ r ∷ s ∷ [])
two_octets [] = (_, _, refl)
two_octets (a ∷ []) = (_, _, refl)
two_octets (a ∷ b ∷ []) = (_, _, refl)
two_octets (a ∷ b ∷ c ∷ []) = (_, _, refl)
two_octets (a ∷ b ∷ c ∷ d ∷ r) = (_, _, refl)

module _ (mcc mnc indicator : List ℕ) (msin : Text) (key : HomeNetworkPublicKey) where
  -- A UE with a network and a routing indicator in digits.
  abbrev pub identity : Identity
  identity = record {
    msin = msin;
    mcc = print mcc;
    mnc = print mnc;
    routing_indicator = print indicator;
    suci_public_key = key;
  }

  -- The octets in front of the output of the scheme, with the output.
  abbrev pub buffer : List ℕ → List ℕ
  buffer output =
      1
      ∷ (nas_plmn mcc mnc
          ++ (bcd indicator
              ++ (parse_octet key.protection_scheme ∷ parse_octet key.public_key_id ∷ output)))

  -- The copies fill the buffer, whatever the lengths of MNC and indicator.
  laid_out :
      IsMcc mcc
      → IsMnc mnc
      → (output : List ℕ)
      → copy_at 8 output (
          copy_at 6 (parse_octet key.protection_scheme ∷ parse_octet key.public_key_id ∷ []) (
            copy_at 4 (bcd indicator) (
              copy_at 1 (nas_plmn mcc mnc) (copy_at 0 (1 ∷ []) (replicate (8 + length output) 0)))))
        ≡ buffer output
  laid_out h k output =
      let (a, b, c, p) = three_octets mcc mnc h k in
      let (r, s, q) = two_octets indicator in
      rw (p, q)
        (filled a b c r s (parse_octet key.protection_scheme) (parse_octet key.public_key_id)
          output)

  encode_suci-buffer :
      (crypto : Crypto) (generated : Option (List ℕ))
      → IsMcc mcc
      → IsMnc mnc
      → Digits indicator
      → length indicator ≤ 4
      → (output : List ℕ) → output_octets crypto generated identity ≡ ok output
      → encode_suci crypto generated identity ≡ ok (print (kept indicator), buffer output)
  unfolding encode_suci
  encode_suci-buffer crypto generated h k d l output e =
      rw (e, ue_octets-nas_plmn mcc mnc h k, routing-bcd indicator d l)
        (ap (λ (b : List ℕ). ok (print (kept indicator), b)) (laid_out h k output))

abbrev pub scheme_key : ℕ → Option (List ℕ) → List ℕ → HomeNetworkPublicKey
scheme_key scheme key key_id = record {
  protection_scheme = print (scheme ∷ []);
  public_key = key;
  public_key_id = print key_id;
}

-- In the null scheme a UE with an MCC of three digits, an MNC of two or three, a routing indicator of
-- at most four and an MSIN of one or more has for its SUCI the octet 1, the PLMN in the layout of
-- TS 24.501, the routing indicator in BCD, the scheme, the key id and octets that are the MSIN in
-- telephony BCD.
pub encode_suci-null :
    (crypto : Crypto) (generated key : Option (List ℕ)) (mcc mnc indicator key_id : List ℕ)
    → IsMcc mcc
    → IsMnc mnc
    → Digits indicator
    → length indicator ≤ 4
    → (d : ℕ) (ds : List ℕ) → Digits (d ∷ ds)
    → (output : List ℕ) × (encode_suci crypto generated
          (identity mcc mnc indicator (print (d ∷ ds)) (scheme_key 0 key key_id))
        ≡ ok (
          print (kept indicator),
          buffer mcc mnc indicator (print (d ∷ ds)) (scheme_key 0 key key_id) output,
        ))
      × (tbcd (hex_encode output) ≡ ok (print (d ∷ ds)))
unfolding output_octets parse_octet
encode_suci-null crypto generated key mcc mnc indicator key_id h k i l d ds m =
    let (t, output, sent, read, back, _) = tbcd-tbcd d ds m in
    (
      output,
      encode_suci-buffer mcc mnc indicator (print (d ∷ ds)) (scheme_key 0 key key_id) crypto
          generated h k i l output (rw (sent, read) refl),
      back,
    )

-- Under Profile A, for a UE with an MSIN that is not empty, with at least 14 digits of MSIN, MCC and
-- MNC, and with a fitting key of the home network, the octets behind the same eight are what
-- `profileADecrypt` with the private key of the home network turns into the MSIN, if the crypto
-- packages are `IsCrypto`.
pub encode_suci-profile_a :
    (crypto : Crypto)
    → IsCrypto crypto
    → (private home shared : List ℕ)
    → crypto.x25519.ecdh private (crypto.x25519.public home) ≡ some shared
    → (u : Subscriber) → IsSubscriber u
    → IsMcc u.mcc
    → IsMnc u.mnc
    → 1 ≤ length u.msin
    → (output : List ℕ) × (encode_suci crypto (some private) (
          identity u.mcc u.mnc u.indicator
            (print u.msin)
            (scheme_key 1 (some (crypto.x25519.public home)) u.key_id))
        ≡ ok (
          print (kept u.indicator),
          buffer u.mcc u.mnc u.indicator
              (print u.msin)
              (scheme_key 1 (some (crypto.x25519.public home)) u.key_id)
              output,
        ))
      × (profile_a_decrypt crypto (hex_encode output) (some home) ≡ ok (some (print u.msin)))
unfolding output_octets scheme_output text_eq parse_octet cipher_suci
encode_suci-profile_a crypto laws private home shared e u proper h k l =
    let (output, c, back, o, some_output) =
      profile_a_decrypt-encrypt crypto laws private home shared e u.msin proper.2 l in
    let long : 1 ≤ length (hex_encode output) = omega (arith, length-encode output) in
    let key = some (crypto.x25519.public home) in
    let concealed =
      conceal-parsed u proper 1 (omega arith) (hex_encode output) (encode-Hex output o) long crypto
        (some private) key c in
    let (i, _, short) = proper.3 in
    (
      output,
      encode_suci-buffer u.mcc u.mnc u.indicator (print u.msin) (scheme_key 1 key u.key_id) crypto
          (some private) h k i short output (rw (concealed, decode-encode output o) refl),
      back,
    )
