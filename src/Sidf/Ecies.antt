-- ===== src/Sidf/Ecies.antt =====
-- The protection profiles: key derivation, encryption and decryption of
-- PacketRusher/internal/common/sidf, with Go's crypto packages for parameters.
pub mod Hexadecimal
pub mod Opening
use g_cn_testbed_k8s.Base.{
  ℕ, zero, suc, ◌+◌, ◌-◌, ◌*◌, ◌/◌, ◌%◌, Bool, true, false, ◌||◌, not, List, [], ◌∷◌, ◌++◌, Option,
  none, some, Text, Result, ok, panic, ◌>>=◌, hex_decode, length, take, drop, ltb, ◌==◌, text_eq,
  if◌then◌else◌,
}
use g_cn_testbed_k8s.Plmn.{hex_encode}
use g_cn_testbed_k8s.Sidf.Tbcd.{tbcd}

-- A curve: the public key of a private key, as bytes, whether bytes are a public key, and the shared
-- key, or an error.
pub record Curve : Type 0 where
  pub public : List ℕ → List ℕ
  pub new_public_key : List ℕ → Bool
  pub ecdh : (private public : List ℕ) → Option (List ℕ)

-- A point is the text of its coordinates.
pub record Crypto : Type 0 where
  pub x25519 : Curve
  pub p256 : Curve
  pub unmarshal : List ℕ → Option (List ℕ)
  pub unmarshal_compressed : List ℕ → Option (List ℕ)
  pub marshal : List ℕ → List ℕ
  pub marshal_compressed : List ℕ → List ℕ
  pub sha256 : List ℕ → List ℕ
  pub hmac_sha256 : (key message : List ℕ) → List ℕ
  pub ctr : (key icb message : List ℕ) → Option (List ℕ)

-- `binary.BigEndian.PutUint32`
abbrev pub be32 : ℕ → List ℕ
be32 n = (n / 16777216 % 256) ∷ (n / 65536 % 256) ∷ (n / 256 % 256) ∷ (n % 256) ∷ []

-- An error ends a function with no value.
abbrev pub try {ℓ} : {A B : Type ℓ} → Option A → (A → Result (Option B)) → Result (Option B)
try none next = ok none
try (some a) next = next a

module _ (crypto : Crypto) where
  -- The rounds of `AnsiX963KDF` that are left, from a counter on.
  unfoldable pub kdf_rounds : ℕ → ℕ → (shared public : List ℕ) → List ℕ
  kdf_rounds zero counter shared public = []
  kdf_rounds (suc n) counter shared public =
      crypto.sha256 ((shared ++ be32 counter) ++ public)
      ++ kdf_rounds n ((counter + 1) % 4294967296) shared public

  -- `AnsiX963KDF`: the number of rounds is the quotient rounded up.
  unfoldable pub ansi_x963_kdf :
      (shared public : List ℕ) → (enc_key_len mac_key_len hash_len : ℕ) → List ℕ
  unfolding kdf_rounds
  ansi_x963_kdf shared public enc_key_len mac_key_len hash_len =
      kdf_rounds ((enc_key_len + mac_key_len + hash_len - 1) / hash_len) 1 shared public

  -- `HmacSha256`
  unfoldable pub hmac_sha256 : (input mac_key : List ℕ) → ℕ → List ℕ
  hmac_sha256 input mac_key mac_len = take mac_len (crypto.hmac_sha256 mac_key input)

  -- The keys of both profiles: for encryption 16 octets, for the counter 16, for the MAC 32.
  abbrev pub keys : (shared public : List ℕ) → List ℕ × List ℕ × List ℕ
  unfolding ansi_x963_kdf
  keys shared public =
      let kdf_key = ansi_x963_kdf shared public 16 32 32 in
      (take 16 kdf_key, take 16 (drop 16 kdf_key), drop (length kdf_key - 32) kdf_key)

  -- The end of both encryptions, from the shared key on: key, cipher text and MAC.
  unfoldable pub seal : (msin : Text) → (shared public : List ℕ) → Result (Option Text)
  unfolding hmac_sha256
  seal msin shared public = tbcd msin >>= λ t.
      let plain_bcd = hex_decode t in
      let (enc_key, iv, mac_key) = keys shared public in
      if not plain_bcd.1
      then ok none
      else try (crypto.ctr enc_key iv plain_bcd.0) λ cipher_text.
        ok (some (hex_encode ((public ++ cipher_text) ++ hmac_sha256 cipher_text mac_key 8)))

  -- `profileAEncrypt` with the ephemeral key that is generated; the key of the network is a pointer.
  unfoldable pub profile_a_encrypt :
      (generated : Option (List ℕ)) → Text → Option (List ℕ) → Result (Option Text)
  unfolding seal
  profile_a_encrypt generated msin hn_pubkey = try generated λ private. elim hn_pubkey [
    | none ↦ panic
    | some hn ↦
        try (crypto.x25519.ecdh private hn)
          λ shared. seal msin shared (crypto.x25519.public private)
  ]

  -- `profileBEncrypt`: the compressed form of the ephemeral key is sent and derived from.
  unfoldable pub profile_b_encrypt :
      (generated : Option (List ℕ)) → Text → Option (List ℕ) → Result (Option Text)
  unfolding seal
  profile_b_encrypt generated msin hn_pubkey = try generated λ private. elim hn_pubkey [
    | none ↦ panic
    | some hn ↦ try (crypto.p256.ecdh private hn) λ shared.
        try (crypto.unmarshal (crypto.p256.public private))
          λ point. seal msin shared (crypto.marshal_compressed point)
  ]

  -- `decryptWithKdf`
  unfoldable pub decrypt_with_kdf :
      (shared kdf_pub_key cipher_text provided_mac : List ℕ) → Option (List ℕ)
  unfolding hmac_sha256
  decrypt_with_kdf shared kdf_pub_key cipher_text provided_mac =
      let (enc_key, icb, mac_key) = keys shared kdf_pub_key in
      if not (text_eq (hmac_sha256 cipher_text mac_key 8) provided_mac)
      then none
      else crypto.ctr enc_key icb cipher_text

  -- `ecdhX25519`
  unfoldable pub ecdh_x25519 : Option (List ℕ) → List ℕ → Option (List ℕ)
  ecdh_x25519 none peer_pub_key = none
  ecdh_x25519 (some private_key) peer_pub_key =
      if crypto.x25519.new_public_key peer_pub_key
      then crypto.x25519.ecdh private_key peer_pub_key
      else none

  -- The two forms of a transmitted key, for the exchange and for the derivation.
  unfoldable pub both_forms : List ℕ → Result (Option (List ℕ × List ℕ))
  both_forms [] = panic
  both_forms (tag ∷ key) =
      if tag == 2 || tag == 3
      then (try (crypto.unmarshal_compressed (tag ∷ key))
          λ p. ok (some (crypto.marshal p, tag ∷ key)))
      else if tag == 4
      then (try (crypto.unmarshal (tag ∷ key))
          λ p. ok (some (tag ∷ key, crypto.marshal_compressed p)))
      else ok none

  -- `ecdhP256`: the shared key and the key to derive from.
  unfoldable pub ecdh_p256 : Option (List ℕ) → List ℕ → Result (Option (List ℕ × List ℕ))
  unfolding both_forms
  ecdh_p256 none transmitted = ok none
  ecdh_p256 (some private_key) transmitted = both_forms transmitted >>= λ forms. try forms λ f.
      if crypto.p256.new_public_key f.0
      then (try (crypto.p256.ecdh private_key f.0) λ shared. ok (some (shared, f.1)))
      else ok none

  -- The plain text as a number in its usual order.
  abbrev pub opened : Option (List ℕ) → Result (Option Text)
  opened plain_text = try plain_text λ p. tbcd (hex_encode p) >>= λ t. ok (some t)

  -- `profileADecrypt`
  unfoldable pub profile_a_decrypt : Text → Option (List ℕ) → Result (Option Text)
  unfolding ecdh_x25519 decrypt_with_kdf
  profile_a_decrypt input private_key =
      let decoded = hex_decode input in
      let s = decoded.0 in
      if not decoded.1
      then ok none
      else if ltb (length s) (32 + 8)
      then ok none
      else try (ecdh_x25519 private_key (take 32 s)) λ shared. opened (
          decrypt_with_kdf shared (take 32 s) (take (length s - 8 - 32) (drop 32 s))
            (drop (length s - 8) s))

  -- The length of a transmitted key by its first octet.
  unfoldable pub pub_key_len : List ℕ → Option ℕ
  pub_key_len [] = none
  pub_key_len (tag ∷ s) =
      if tag == 2 || tag == 3 then some 33 else if tag == 4 then some 65 else none

  -- `profileBDecrypt`
  unfoldable pub profile_b_decrypt : Text → Option (List ℕ) → Result (Option Text)
  unfolding ecdh_p256 decrypt_with_kdf pub_key_len
  profile_b_decrypt input private_key =
      let decoded = hex_decode input in
      let s = decoded.0 in
      if not decoded.1
      then ok none
      else try (pub_key_len s) λ n.
        if ltb (length s) (n + 8)
        then ok none
        else ecdh_p256 private_key (take n s) >>= λ keys. try keys λ k.
          opened
            (decrypt_with_kdf k.0 k.1 (take (length s - 8 - n) (drop n s)) (drop (length s - 8) s))
