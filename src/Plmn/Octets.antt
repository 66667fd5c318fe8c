-- ===== src/Plmn/Octets.antt =====
-- Round trips of the PLMN octets.
use g_cn_testbed_k8s.Base.{
  ℕ, ◌<◌, ◌+◌, ◌*◌, ◌≡◌, refl, List, [], ◌∷◌, Text, ok, arith, ◌>>=◌, hex_decode, from_hex_char,
  to_hex_char, some, true,
}
use g_cn_testbed_k8s.Strconv.Digits.{Digits, print}
use g_cn_testbed_k8s.Plmn.{
  hex_encode, gnb_mcc_and_mnc_in_octets, ue_mcc_and_mnc_in_octets, convert_mcc_mnc,
}

-- The text of decimal digits.
from_hex_char-digit : (d : ℕ) → d < 10 → from_hex_char (b'0' + d) ≡ some d
unfolding from_hex_char
from_hex_char-digit d h = ground arith

to_hex_char-digit : (d : ℕ) → d < 10 → to_hex_char d ≡ b'0' + d
unfolding to_hex_char
to_hex_char-digit d h = ground arith

-- Two digits are one byte of a decoded text.
pub hex_decode-digits :
    (a b : ℕ) (s : Text)
    → a < 10
    → b < 10
    → hex_decode ((b'0' + a) ∷ (b'0' + b) ∷ s) ≡ ((a * 16 + b) ∷ (hex_decode s).0, (hex_decode s).1)
unfolding hex_decode
hex_decode-digits a b s h k = ground (arith)

pub hex_decode-filler :
    (b : ℕ) (s : Text)
    → b < 10
    → hex_decode (b'f' ∷ (b'0' + b) ∷ s) ≡ ((15 * 16 + b) ∷ (hex_decode s).0, (hex_decode s).1)
unfolding hex_decode
hex_decode-filler b s k = ground arith

hex_encode-digits :
    (a b : ℕ) (bs : List ℕ)
    → a < 10
    → b < 10
    → hex_encode ((a * 16 + b) ∷ bs) ≡ (b'0' + a) ∷ (b'0' + b) ∷ hex_encode bs
unfolding hex_encode
hex_encode-digits a b bs h k = ground arith

hex_encode-filler :
    (b : ℕ) (bs : List ℕ)
    → b < 10
    → hex_encode ((15 * 16 + b) ∷ bs) ≡ b'f' ∷ (b'0' + b) ∷ hex_encode bs
unfolding hex_encode
hex_encode-filler b bs k = ground arith

pub hex_decode-nil : hex_decode [] ≡ ([], true)
unfolding hex_decode
hex_decode-nil = refl

pub hex_decode-padded :
    (b : ℕ) (s : Text)
    → b < 10
    → hex_decode (b'F' ∷ (b'0' + b) ∷ s) ≡ ((15 * 16 + b) ∷ (hex_decode s).0, (hex_decode s).1)
unfolding hex_decode
hex_decode-padded b s k = ground arith

pub hex_decode-pad :
    (s : Text)
    → hex_decode (b'F' ∷ b'F' ∷ s) ≡ ((15 * 16 + 15) ∷ (hex_decode s).0, (hex_decode s).1)
unfolding hex_decode
hex_decode-pad s = refl

gnb_octets_two :
    (m1 m2 m3 n1 n2 : ℕ)
    → Digits (m1 ∷ m2 ∷ m3 ∷ n1 ∷ n2 ∷ [])
    → gnb_mcc_and_mnc_in_octets (print (m1 ∷ m2 ∷ m3 ∷ [])) (print (n1 ∷ n2 ∷ []))
      ≡ ok ((m2 * 16 + m1) ∷ (15 * 16 + m3) ∷ (n2 * 16 + n1) ∷ [])
unfolding gnb_mcc_and_mnc_in_octets
gnb_octets_two m1 m2 m3 n1 n2 h = rw (
  hex_decode-digits m2 m1 _ (omega arith) (omega arith),
  hex_decode-filler m3 _ (omega arith),
  hex_decode-digits n2 n1 _ (omega arith) (omega arith),
  hex_decode-nil,
)

gnb_octets_three :
    (m1 m2 m3 n1 n2 n3 : ℕ)
    → Digits (m1 ∷ m2 ∷ m3 ∷ n1 ∷ n2 ∷ n3 ∷ [])
    → gnb_mcc_and_mnc_in_octets (print (m1 ∷ m2 ∷ m3 ∷ [])) (print (n1 ∷ n2 ∷ n3 ∷ []))
      ≡ ok ((m2 * 16 + m1) ∷ (n1 * 16 + m3) ∷ (n3 * 16 + n2) ∷ [])
unfolding gnb_mcc_and_mnc_in_octets
gnb_octets_three m1 m2 m3 n1 n2 n3 h = rw (
  hex_decode-digits m2 m1 _ (omega arith) (omega arith),
  hex_decode-digits n1 m3 _ (omega arith) (omega arith),
  hex_decode-digits n3 n2 _ (omega arith) (omega arith),
  hex_decode-nil,
)

-- An MNC has two digits or three.
abbrev pub IsMnc : List ℕ → Type 0
IsMnc (a ∷ b ∷ []) = Digits (a ∷ b ∷ [])
IsMnc (a ∷ b ∷ c ∷ []) = Digits (a ∷ b ∷ c ∷ [])
IsMnc _ = ⊥

abbrev pub IsMcc : List ℕ → Type 0
IsMcc (a ∷ b ∷ c ∷ []) = Digits (a ∷ b ∷ c ∷ [])
IsMcc _ = ⊥

convert_two :
    (m1 m2 m3 n1 n2 : ℕ)
    → Digits (m1 ∷ m2 ∷ m3 ∷ n1 ∷ n2 ∷ [])
    → convert_mcc_mnc (hex_encode ((m2 * 16 + m1) ∷ (15 * 16 + m3) ∷ (n2 * 16 + n1) ∷ []))
      ≡ ok (print (m1 ∷ m2 ∷ m3 ∷ []), print (n1 ∷ n2 ∷ []))
unfolding convert_mcc_mnc
convert_two m1 m2 m3 n1 n2 h = rw (
  hex_encode-digits m2 m1 _ (omega arith) (omega arith),
  hex_encode-filler m3 _ (omega arith),
  hex_encode-digits n2 n1 _ (omega arith) (omega arith),
)

convert_three :
    (m1 m2 m3 n1 n2 n3 : ℕ)
    → Digits (m1 ∷ m2 ∷ m3 ∷ n1 ∷ n2 ∷ n3 ∷ [])
    → convert_mcc_mnc (hex_encode ((m2 * 16 + m1) ∷ (n1 * 16 + m3) ∷ (n3 * 16 + n2) ∷ []))
      ≡ ok (print (m1 ∷ m2 ∷ m3 ∷ []), print (n1 ∷ n2 ∷ n3 ∷ []))
unfolding convert_mcc_mnc
convert_three m1 m2 m3 n1 n2 n3 h =
    rw
      (
        hex_encode-digits m2 m1 _ (omega arith) (omega arith),
        hex_encode-digits n1 m3 _ (omega arith) (omega arith),
        hex_encode-digits n3 n2 _ (omega arith) (omega arith),
      )
      (ground arith)

-- For every MCC of three digits and MNC of two or three, the gNodeB's octets, digitsed in
-- hexadecimal, are read back by `convertMccMnc` as the same MCC and MNC.
pub convert-gnb_octets :
    (mcc mnc : List ℕ)
    → IsMcc mcc
    → IsMnc mnc
    → (gnb_mcc_and_mnc_in_octets (print mcc) (print mnc) >>= λ octets.
        convert_mcc_mnc (hex_encode octets))
      ≡ ok (print mcc, print mnc)
convert-gnb_octets (m1 ∷ m2 ∷ m3 ∷ []) (n1 ∷ n2 ∷ []) h k =
    rw (gnb_octets_two m1 m2 m3 n1 n2 (omega arith)) (convert_two m1 m2 m3 n1 n2 (omega arith))
convert-gnb_octets (m1 ∷ m2 ∷ m3 ∷ []) (n1 ∷ n2 ∷ n3 ∷ []) h k =
    rw (gnb_octets_three m1 m2 m3 n1 n2 n3 (omega arith))
      (convert_three m1 m2 m3 n1 n2 n3 (omega arith))
convert-gnb_octets (m1 ∷ m2 ∷ m3 ∷ []) [] h k = absurd k
convert-gnb_octets (m1 ∷ m2 ∷ m3 ∷ []) (_ ∷ []) h k = absurd k
convert-gnb_octets (m1 ∷ m2 ∷ m3 ∷ []) (_ ∷ _ ∷ _ ∷ _ ∷ _) h k = absurd k
convert-gnb_octets [] mnc h k = absurd h
convert-gnb_octets (_ ∷ []) mnc h k = absurd h
convert-gnb_octets (_ ∷ _ ∷ []) mnc h k = absurd h
convert-gnb_octets (_ ∷ _ ∷ _ ∷ _ ∷ _) mnc h k = absurd h

-- The layout of TS 24.501, table 9.11.3.4.1: MCC digits 2 and 1, MNC digit 3 (or the filler 15)
-- and MCC digit 3, MNC digits 2 and 1.
abbrev pub nas_plmn : List ℕ → List ℕ → List ℕ
nas_plmn (m1 ∷ m2 ∷ m3 ∷ []) (n1 ∷ n2 ∷ []) = (m2 * 16 + m1) ∷ (15 * 16 + m3) ∷ (n2 * 16 + n1) ∷ []
nas_plmn (m1 ∷ m2 ∷ m3 ∷ []) (n1 ∷ n2 ∷ n3 ∷ []) =
    (m2 * 16 + m1) ∷ (n3 * 16 + m3) ∷ (n2 * 16 + n1) ∷ []
nas_plmn _ _ = []

ue_octets_two :
    (m1 m2 m3 n1 n2 : ℕ)
    → Digits (m1 ∷ m2 ∷ m3 ∷ n1 ∷ n2 ∷ [])
    → ue_mcc_and_mnc_in_octets (print (m1 ∷ m2 ∷ m3 ∷ [])) (print (n1 ∷ n2 ∷ []))
      ≡ ok ((m2 * 16 + m1) ∷ (15 * 16 + m3) ∷ (n2 * 16 + n1) ∷ [])
unfolding ue_mcc_and_mnc_in_octets
ue_octets_two m1 m2 m3 n1 n2 h = rw (
  hex_decode-digits m2 m1 _ (omega arith) (omega arith),
  hex_decode-filler m3 _ (omega arith),
  hex_decode-digits n2 n1 _ (omega arith) (omega arith),
  hex_decode-nil,
)

ue_octets_three :
    (m1 m2 m3 n1 n2 n3 : ℕ)
    → Digits (m1 ∷ m2 ∷ m3 ∷ n1 ∷ n2 ∷ n3 ∷ [])
    → ue_mcc_and_mnc_in_octets (print (m1 ∷ m2 ∷ m3 ∷ [])) (print (n1 ∷ n2 ∷ n3 ∷ []))
      ≡ ok ((m2 * 16 + m1) ∷ (n3 * 16 + m3) ∷ (n2 * 16 + n1) ∷ [])
unfolding ue_mcc_and_mnc_in_octets
ue_octets_three m1 m2 m3 n1 n2 n3 h = rw (
  hex_decode-digits m2 m1 _ (omega arith) (omega arith),
  hex_decode-digits n3 m3 _ (omega arith) (omega arith),
  hex_decode-digits n2 n1 _ (omega arith) (omega arith),
  hex_decode-nil,
)

-- For every MCC of three digits and MNC of two or three, the UE's octets are those of the NAS
-- layout of TS 24.501, in which MNC digit 3 stands above MCC digit 3.
pub ue_octets-nas_plmn :
    (mcc mnc : List ℕ)
    → IsMcc mcc
    → IsMnc mnc
    → ue_mcc_and_mnc_in_octets (print mcc) (print mnc) ≡ ok (nas_plmn mcc mnc)
ue_octets-nas_plmn (m1 ∷ m2 ∷ m3 ∷ []) (n1 ∷ n2 ∷ []) h k =
    ue_octets_two m1 m2 m3 n1 n2 (omega arith)
ue_octets-nas_plmn (m1 ∷ m2 ∷ m3 ∷ []) (n1 ∷ n2 ∷ n3 ∷ []) h k =
    ue_octets_three m1 m2 m3 n1 n2 n3 (omega arith)
ue_octets-nas_plmn (m1 ∷ m2 ∷ m3 ∷ []) [] h k = absurd k
ue_octets-nas_plmn (m1 ∷ m2 ∷ m3 ∷ []) (_ ∷ []) h k = absurd k
ue_octets-nas_plmn (m1 ∷ m2 ∷ m3 ∷ []) (_ ∷ _ ∷ _ ∷ _ ∷ _) h k = absurd k
ue_octets-nas_plmn [] mnc h k = absurd h
ue_octets-nas_plmn (_ ∷ []) mnc h k = absurd h
ue_octets-nas_plmn (_ ∷ _ ∷ []) mnc h k = absurd h
ue_octets-nas_plmn (_ ∷ _ ∷ _ ∷ _ ∷ _) mnc h k = absurd h
