-- ===== src/Sidf/Ecies/Opening.antt =====
-- What `profileADecrypt` makes of the output of `profileAEncrypt`.
use g_cn_testbed_k8s.Base.{
  ℕ, zero, suc, ◌+◌, ◌-◌, ◌≤◌, ◌≡◌, refl, sym, ap, ◌∙◌, true, false, List, [], ◌∷◌, ◌++◌, some,
  Text, ok, arith, length, ltb, take, drop, AreOctets, hex_decode, length-append, length-take,
  take-append, drop-append, append_assoc, text_eq_refl,
}
use g_cn_testbed_k8s.Strconv.Digits.{Digits, print}
use g_cn_testbed_k8s.Plmn.{hex_encode}
use g_cn_testbed_k8s.Sidf.Tbcd.{tbcd}
use g_cn_testbed_k8s.Sidf.Tbcd.RoundTrip.{tbcd-tbcd}
use g_cn_testbed_k8s.Sidf.Ecies.{
  Curve, Crypto, keys, seal, profile_a_encrypt, profile_a_decrypt, decrypt_with_kdf, ecdh_x25519,
  hmac_sha256, kdf_rounds, ansi_x963_kdf,
}
use g_cn_testbed_k8s.Sidf.Ecies.Hexadecimal.{decode-encode}

-- Both sides of an exchange get the same key, and a public key is one, of 32 octets.
abbrev pub IsX25519 : Curve → Type 0
IsX25519 curve =
    ((a b s : List ℕ)
      → curve.ecdh a (curve.public b) ≡ some s
      → curve.ecdh b (curve.public a) ≡ some s)
    × ((a : List ℕ) → curve.new_public_key (curve.public a) ≡ true)
    × ((a : List ℕ) → length (curve.public a) ≡ 32)
    × ((a : List ℕ) → AreOctets (curve.public a))

-- SHA-256 and its HMAC give 32 octets; AES in counter mode takes a key of 16 octets, and what it makes
-- of octets it turns back.
abbrev pub IsCrypto : Crypto → Type 0
IsCrypto crypto =
    IsX25519 crypto.x25519
    × ((message : List ℕ) → length (crypto.sha256 message) ≡ 32)
    × ((key message : List ℕ) → length (crypto.hmac_sha256 key message) ≡ 32)
    × ((key message : List ℕ) → AreOctets (crypto.hmac_sha256 key message))
    × ((key icb message : List ℕ)
        → length key ≡ 16
        → AreOctets message
        → (c : List ℕ) × (crypto.ctr key icb message ≡ some c)
          × (crypto.ctr key icb c ≡ some message)
          × AreOctets c)

-- The parts of a scheme output of Profile A.
module _ (public cipher mac : List ℕ) (key_len : length public ≡ 32)
    (mac_len : length mac ≡ 8) where
  sent-length : length ((public ++ cipher) ++ mac) ≡ 40 + length cipher
  sent-length = omega (arith, length-append (public ++ cipher) mac, length-append public cipher)

  sent-key : take 32 ((public ++ cipher) ++ mac) ≡ public
  sent-key =
      ap (λ (l : List ℕ). take 32 l) (append_assoc public cipher mac)
      ∙ ap (λ (n : ℕ). take n (public ++ (cipher ++ mac))) (sym key_len)
      ∙ take-append public (cipher ++ mac)

  sent-cipher :
      take (length ((public ++ cipher) ++ mac) - 8 - 32) (drop 32 ((public ++ cipher) ++ mac))
      ≡ cipher
  sent-cipher =
      let size : length ((public ++ cipher) ++ mac) - 8 - 32 ≡ length cipher =
        omega (arith, sent-length) in
      let rest : drop 32 ((public ++ cipher) ++ mac) ≡ cipher ++ mac =
        ap (λ (l : List ℕ). drop 32 l) (append_assoc public cipher mac)
        ∙ ap (λ (n : ℕ). drop n (public ++ (cipher ++ mac))) (sym key_len)
        ∙ drop-append public (cipher ++ mac) in
      rw (size, rest) (take-append cipher mac)

  sent-mac : drop (length ((public ++ cipher) ++ mac) - 8) ((public ++ cipher) ++ mac) ≡ mac
  sent-mac =
      let size : length ((public ++ cipher) ++ mac) - 8 ≡ length (public ++ cipher) =
        omega (arith, length-append (public ++ cipher) mac) in
      rw size (drop-append (public ++ cipher) mac)

take-AreOctets : (n : ℕ) (l : List ℕ) → AreOctets l → AreOctets (take n l)
take-AreOctets zero l h = tt
take-AreOctets (suc n) [] h = tt
take-AreOctets (suc n) (b ∷ l) (h, hs) = (h, take-AreOctets n l hs)

append-AreOctets : (xs ys : List ℕ) → AreOctets xs → AreOctets ys → AreOctets (xs ++ ys)
append-AreOctets [] ys h k = k
append-AreOctets (b ∷ xs) ys (h, hs) k = (h, append-AreOctets xs ys hs k)

module _ (crypto : Crypto) (laws : IsCrypto crypto) (shared public : List ℕ) where
  -- The key for encryption has 16 octets.
  key-length : length (keys crypto shared public).0 ≡ 16
  unfolding ansi_x963_kdf kdf_rounds
  key-length = length-take 16 _ (omega (arith, length-append (crypto.sha256 _) _, laws.1 _))

  mac-length :
      (cipher : List ℕ) → length (hmac_sha256 crypto cipher (keys crypto shared public).2 8) ≡ 8
  unfolding hmac_sha256
  mac-length cipher = length-take 8 _ (omega (arith, laws.2 _ cipher))

  mac-AreOctets :
      (cipher : List ℕ) → AreOctets (hmac_sha256 crypto cipher (keys crypto shared public).2 8)
  unfolding hmac_sha256
  mac-AreOctets cipher = take-AreOctets 8 _ (laws.3 _ cipher)

  decrypt-own :
      (cipher plain : List ℕ)
      → crypto.ctr (keys crypto shared public).0 (keys crypto shared public).1 cipher ≡ some plain
      → decrypt_with_kdf crypto shared public cipher
          (hmac_sha256 crypto cipher (keys crypto shared public).2 8)
        ≡ some plain
  unfolding decrypt_with_kdf
  decrypt-own cipher plain e =
      rw (text_eq_refl (hmac_sha256 crypto cipher (keys crypto shared public).2 8)) e

-- What the sealing of digits makes is opened with the same shared key.
module _ (crypto : Crypto) (laws : IsCrypto crypto) (shared public : List ℕ)
    (key_len : length public ≡ 32) (octets : AreOctets public) where
  abbrev sealed : (cipher : List ℕ) → List ℕ
  sealed cipher = (public ++ cipher) ++ hmac_sha256 crypto cipher (keys crypto shared public).2 8

  sealed-AreOctets : (cipher : List ℕ) → AreOctets cipher → AreOctets (sealed cipher)
  sealed-AreOctets cipher h =
      append-AreOctets (public ++ cipher) _ (append-AreOctets public cipher octets h)
        (mac-AreOctets crypto laws shared public cipher)

  seal-eq :
      (msin t : Text) (plain cipher : List ℕ)
      → tbcd msin ≡ ok t
      → hex_decode t ≡ (plain, true)
      → crypto.ctr (keys crypto shared public).0 (keys crypto shared public).1 plain ≡ some cipher
      → seal crypto msin shared public ≡ ok (some (hex_encode (sealed cipher)))
  unfolding seal
  seal-eq msin t plain cipher e f k = rw (e, f, k) refl

  decrypt-sealed :
      (private : List ℕ) (msin : Text) (plain cipher : List ℕ)
      → crypto.x25519.new_public_key public ≡ true
      → crypto.x25519.ecdh private public ≡ some shared
      → AreOctets cipher
      → crypto.ctr (keys crypto shared public).0 (keys crypto shared public).1 cipher ≡ some plain
      → tbcd (hex_encode plain) ≡ ok msin
      → profile_a_decrypt crypto (hex_encode (sealed cipher)) (some private) ≡ ok (some msin)
  unfolding profile_a_decrypt ecdh_x25519
  decrypt-sealed private msin plain cipher n d o k e =
      let mac = hmac_sha256 crypto cipher (keys crypto shared public).2 8 in
      let m = mac-length crypto laws shared public cipher in
      let long : ltb (length (sealed cipher)) (32 + 8) ≡ false =
        ground (arith, sent-length public cipher mac key_len m) in
      rw
        (
          decode-encode (sealed cipher) (sealed-AreOctets cipher o),
          long,
          sent-key public cipher mac key_len m,
          sent-cipher public cipher mac key_len m,
          sent-mac public cipher mac key_len m,
          n,
          d,
          decrypt-own crypto laws shared public cipher plain k,
          e,
        )
        refl

-- Under Profile A, with an ephemeral private key that gives a shared key with the public key of the
-- home network, and with `IsCrypto` of the crypto packages, every number of one or more decimal digits is encrypted
-- into the hexadecimal of octets, and `profileADecrypt` with the private key of the home network gives
-- the number back.
pub profile_a_decrypt-encrypt :
    (crypto : Crypto)
    → IsCrypto crypto
    → (private home shared : List ℕ)
    → crypto.x25519.ecdh private (crypto.x25519.public home) ≡ some shared
    → (msin : List ℕ) → Digits msin
    → 1 ≤ length msin
    → (output : List ℕ) × (profile_a_encrypt crypto
          (some private)
          (print msin)
          (some (crypto.x25519.public home))
        ≡ ok (some (hex_encode output)))
      × (profile_a_decrypt crypto (hex_encode output) (some home) ≡ ok (some (print msin)))
      × AreOctets output
      × (1 ≤ length output)
unfolding profile_a_encrypt
profile_a_decrypt-encrypt crypto laws private home shared e [] h l = absurd (omega arith)
profile_a_decrypt-encrypt crypto laws private home shared e (d ∷ ds) h l =
    let public = crypto.x25519.public private in
    let ((agree, accepted, size, octets), _, _, _, _) = laws in
    let (t, plain, sent, read, back, o) = tbcd-tbcd d ds h in
    let (enc_key, icb, _) = keys crypto shared public in
    let (cipher, c, turned, co) =
      laws.4 enc_key icb plain (key-length crypto laws shared public) o in
    let m = mac-length crypto laws shared public cipher in
    (
      sealed crypto laws shared public (size private) (octets private) cipher,
      rw e (
          seal-eq crypto laws shared public (size private) (octets private) (print (d ∷ ds)) t plain
            cipher sent read c),
      decrypt-sealed crypto laws shared public (size private) (octets private) home (print (d ∷ ds))
          plain cipher (accepted private) (agree private home shared e) co turned back,
      sealed-AreOctets crypto laws shared public (size private) (octets private) cipher co,
      omega (arith, sent-length public cipher _ (size private) m),
    )
