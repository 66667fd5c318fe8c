-- ===== src/Sidf/Ecies/Hexadecimal.antt =====
-- Octets printed in hexadecimal by PacketRusher/internal/common/sidf, and read again.
use g_cn_testbed_k8s.Base.{
  ℕ, ◌+◌, ◌*◌, ◌/◌, ◌%◌, ◌<◌, ◌≡◌, refl, true, List, [], ◌∷◌, some, arith, length, AreOctets,
  hex_decode, from_hex_char, to_hex_char,
}
use g_cn_testbed_k8s.Plmn.{hex_encode}
use g_cn_testbed_k8s.Sidf.Suci.{is_hex}
use g_cn_testbed_k8s.Sidf.Suci.Fields.{Hex}

read_digit : (k : ℕ) → k < 16 → from_hex_char (to_hex_char k) ≡ some k
unfolding from_hex_char to_hex_char
read_digit k h = ground arith

digit-is_hex : (k : ℕ) → k < 16 → is_hex (to_hex_char k) ≡ true
unfolding to_hex_char
digit-is_hex k h = ground arith

pub decode-encode : (bs : List ℕ) → AreOctets bs → hex_decode (hex_encode bs) ≡ (bs, true)
unfolding hex_decode hex_encode
decode-encode [] h = refl
decode-encode (b ∷ bs) (h, hs) =
    let same : b / 16 * 16 + b % 16 ≡ b = omega arith in
    ground (
      arith,
      read_digit (b / 16) (omega arith),
      read_digit (b % 16) (omega arith),
      decode-encode bs hs,
    )

pub encode-Hex : (bs : List ℕ) → AreOctets bs → Hex (hex_encode bs)
unfolding hex_encode
encode-Hex [] h = tt
encode-Hex (b ∷ bs) (h, hs) =
    (digit-is_hex (b / 16) (omega arith), (digit-is_hex (b % 16) (omega arith), encode-Hex bs hs))

pub length-encode : (bs : List ℕ) → length (hex_encode bs) ≡ 2 * length bs
unfolding hex_encode
length-encode [] = refl
length-encode (b ∷ bs) = let rest = length-encode bs in omega arith
