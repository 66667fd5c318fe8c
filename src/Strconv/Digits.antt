-- ===== src/Strconv/Digits.antt =====
-- What `ParseUint` makes of decimal digits.
use g_cn_testbed_k8s.Base.{
  ℕ, ◌+◌, ◌-◌, ◌*◌, ◌^◌, ◌≤◌, ◌<◌, ◌≡◌, refl, false, List, [], ◌∷◌, ◌++◌, none, some, Text, arith,
  ltb, if◌then◌else◌,
}
use g_cn_testbed_k8s.Strconv.{scan_digits, digit_value, parse_uint, cut}

-- A number between 0 and 9 for each digit.
abbrev pub Digits : List ℕ → Type 0
Digits [] = Unit
Digits (d ∷ ds) = (d < 10) × Digits ds

-- The digits as characters.
abbrev pub print : List ℕ → Text
print [] = []
print (d ∷ ds) = (b'0' + d) ∷ print ds

-- The number that the digits stand for behind `n`.
abbrev pub value_behind : ℕ → List ℕ → ℕ
value_behind n [] = n
value_behind n (d ∷ ds) = value_behind (n * 10 + d) ds

abbrev pub value : List ℕ → ℕ
value ds = value_behind 0 ds

le-value_behind : (n : ℕ) (ds : List ℕ) → n ≤ value_behind n ds
le-value_behind n [] = omega arith
le-value_behind n (d ∷ ds) = omega (arith, le-value_behind (n * 10 + d) ds)

digit_value-print : (d : ℕ) → d < 10 → digit_value (b'0' + d) ≡ some d
unfolding digit_value
digit_value-print d h = ground arith

scan-print :
    (bound : ℕ) (ds : List ℕ) (n : ℕ)
    → Digits ds
    → n ≤ bound
    → scan_digits 10 bound false (print ds) n
      ≡ (if ltb bound (value_behind n ds) then none else some (value_behind n ds))
unfolding scan_digits
scan-print bound [] n _ fits = ground arith
scan-print bound (d ∷ ds) n (h, hs) fits = ground (
  arith,
  digit_value-print d h,
  scan-print bound ds (n * 10 + d) hs,
  le-value_behind (n * 10 + d) ds,
)

-- One or more decimal digits are read as their number, leading zeros or not, if it fits the width,
-- and are refused if it does not.
pub parse_uint-print :
    (bits d : ℕ) (ds : List ℕ)
    → Digits (d ∷ ds)
    → parse_uint bits (print (d ∷ ds))
      ≡ (if ltb (2 ^ bits - 1) (value (d ∷ ds)) then none else some (value (d ∷ ds)))
unfolding parse_uint
parse_uint-print bits d ds h = scan-print (2 ^ bits - 1) (d ∷ ds) 0 h (omega arith)

-- Behind digits the first other character is found.
pub cut-print :
    (c : ℕ) (ds : List ℕ) (s : Text)
    → Digits ds
    → b'9' < c
    → cut c (print ds ++ c ∷ s) ≡ some (print ds, s)
unfolding cut
cut-print c [] s h lt = ground arith
cut-print c (d ∷ ds) s (h, hs) lt = ground (arith, cut-print c ds s hs lt)

pub cut-print_absent : (c : ℕ) (ds : List ℕ) → Digits ds → b'9' < c → cut c (print ds) ≡ none
unfolding cut
cut-print_absent c [] h lt = refl
cut-print_absent c (d ∷ ds) (h, hs) lt = ground (arith, cut-print_absent c ds hs lt)
