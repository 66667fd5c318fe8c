-- ===== src/Sidf/Tbcd/RoundTrip.antt =====
-- Digits go through telephony BCD and bytes and come back.
use g_cn_testbed_k8s.Base.{
  ℕ, ◌+◌, ◌*◌, ◌/◌, ◌%◌, ◌<◌, ◌≡◌, refl, ap, ◌∙◌, true, List, [], ◌∷◌, some, Text, AreOctets, ok,
  arith, hex_decode, from_hex_char, to_hex_char,
}
use g_cn_testbed_k8s.Strconv.Digits.{Digits, print}
use g_cn_testbed_k8s.Plmn.{hex_encode}
use g_cn_testbed_k8s.Sidf.Tbcd.{tbcd, swap_pairs, strip_filler, pad}

-- The digits with the filler that hexadecimal gives back for an odd one.
abbrev filled : List ℕ → Text
filled [] = []
filled (a ∷ []) = (b'0' + a) ∷ b'f' ∷ []
filled (a ∷ b ∷ l) = (b'0' + a) ∷ (b'0' + b) ∷ filled l

-- The bytes of the digits, the first of a pair in the low half.
abbrev packed : List ℕ → List ℕ
packed [] = []
packed (a ∷ []) = (240 + a) ∷ []
packed (a ∷ b ∷ l) = (b * 16 + a) ∷ packed l

packed-AreOctets : (ds : List ℕ) → Digits ds → AreOctets (packed ds)
packed-AreOctets [] h = tt
packed-AreOctets (a ∷ []) (h, _) = (omega arith, tt)
packed-AreOctets (a ∷ b ∷ l) (h, (k, hs)) = (omega arith, packed-AreOctets l hs)

pad-pair : (a b : ℕ) (s : Text) → pad (a ∷ b ∷ s) ≡ a ∷ b ∷ pad s
unfolding pad
pad-pair a b s = ground arith

from_digit : (d : ℕ) → d < 10 → from_hex_char (b'0' + d) ≡ some d
unfolding from_hex_char
from_digit d h = ground arith

to_digit : (d : ℕ) → d < 10 → to_hex_char d ≡ b'0' + d
unfolding to_hex_char
to_digit d h = ground arith

from_filler : from_hex_char b'F' ≡ some 15
unfolding from_hex_char
from_filler = refl

to_filler : to_hex_char 15 ≡ b'f'
unfolding to_hex_char
to_filler = refl

decode-packed :
    (ds : List ℕ) → Digits ds → hex_decode (swap_pairs (pad (print ds))) ≡ (packed ds, true)
unfolding hex_decode swap_pairs
decode-packed [] h = unfold pad in refl
decode-packed (a ∷ []) (h, _) = unfold pad in ground (arith, from_digit a h, from_filler)
decode-packed (a ∷ b ∷ l) (h, (k, hs)) =
    rw (pad-pair (b'0' + a) (b'0' + b) (print l))
      (ground (arith, from_digit a h, from_digit b k, decode-packed l hs))

swap-packed : (ds : List ℕ) → Digits ds → swap_pairs (hex_encode (packed ds)) ≡ filled ds
unfolding hex_encode swap_pairs
swap-packed [] h = refl
swap-packed (a ∷ []) (h, _) =
    let low : (240 + a) % 16 ≡ a = omega arith in
    let high : (240 + a) / 16 ≡ 15 = omega arith in rw (low, high, to_digit a h, to_filler)
swap-packed (a ∷ b ∷ l) (h, (k, hs)) =
    let low : (b * 16 + a) % 16 ≡ a = omega arith in
    let high : (b * 16 + a) / 16 ≡ b = omega arith in
    rw (low, high, to_digit a h, to_digit b k, swap-packed l hs)

pad-packed : (l : List ℕ) → pad (hex_encode l) ≡ hex_encode l
unfolding hex_encode
pad-packed [] = unfold pad in refl
pad-packed (b ∷ l) =
    pad-pair (to_hex_char (b / 16)) (to_hex_char (b % 16)) (hex_encode l)
    ∙ ap (λ (s : Text). to_hex_char (b / 16) ∷ to_hex_char (b % 16) ∷ s) (pad-packed l)

strip-cons : (x : ℕ) (s r : Text) → strip_filler s ≡ ok r → strip_filler (x ∷ s) ≡ ok (x ∷ r)
unfolding strip_filler
strip-cons x [] r h = absurd (ground arith)
strip-cons x (y ∷ s) r h = ground arith

strip-filled :
    (d : ℕ) (ds : List ℕ) → Digits (d ∷ ds) → strip_filler (filled (d ∷ ds)) ≡ ok (print (d ∷ ds))
unfolding strip_filler
strip-filled a [] (h, _) = ground arith
strip-filled a (b ∷ []) (h, (k, _)) = ground arith
strip-filled a (b ∷ c ∷ l) (h, (k, hs)) =
    strip-cons (b'0' + a) ((b'0' + b) ∷ filled (c ∷ l)) _
      (strip-cons (b'0' + b) (filled (c ∷ l)) _ (strip-filled c l hs))

strip-swapped :
    (d : ℕ) (ds : List ℕ)
    → Digits (d ∷ ds)
    → strip_filler (swap_pairs (pad (print (d ∷ ds)))) ≡ ok (swap_pairs (pad (print (d ∷ ds))))
unfolding strip_filler swap_pairs
strip-swapped a [] (h, _) = unfold pad in ground arith
strip-swapped a (b ∷ []) (h, (k, _)) = unfold pad in ground arith
strip-swapped a (b ∷ c ∷ l) (h, (k, hs)) = rw (pad-pair (b'0' + a) (b'0' + b) (print (c ∷ l))) (
    strip-cons (b'0' + b) ((b'0' + a) ∷ swap_pairs (pad (print (c ∷ l)))) _
      (strip-cons (b'0' + a) (swap_pairs (pad (print (c ∷ l)))) _ (strip-swapped c l hs)))

-- Decimal digits in telephony BCD are hexadecimal text, and its bytes in hexadecimal are the digits in
-- telephony BCD again: the filler of an odd number is put in and taken out.
pub tbcd-tbcd :
    (d : ℕ) (ds : List ℕ)
    → Digits (d ∷ ds)
    → (t : Text) × (bytes : List ℕ) × (tbcd (print (d ∷ ds)) ≡ ok t)
      × (hex_decode t ≡ (bytes, true))
      × (tbcd (hex_encode bytes) ≡ ok (print (d ∷ ds)))
      × AreOctets bytes
unfolding tbcd
tbcd-tbcd d ds h = (
  swap_pairs (pad (print (d ∷ ds))),
  packed (d ∷ ds),
  strip-swapped d ds h,
  decode-packed (d ∷ ds) h,
  rw (pad-packed (packed (d ∷ ds)), swap-packed (d ∷ ds) h) (strip-filled d ds h),
  packed-AreOctets (d ∷ ds) h,
)
