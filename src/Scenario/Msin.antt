-- ===== src/Scenario/Msin.antt =====
-- The identities of the simulated UEs and gNodeBs: `IncrementMsin` and `gnbIdGenerator` of
-- PacketRusher/internal/common/tools/tools.go.
use g_cn_testbed_k8s.Base.{
  ℕ, ◌+◌, ◌-◌, ◌^◌, ◌<◌, ◌≤◌, ◌≡◌, refl, ap, Bool, true, false, List, [], ◌∷◌, Option, none, some,
  Text, Result, ok, fatal, arith, length, ltb, ◌==◌, map, if◌then◌else◌,
}
use g_cn_testbed_k8s.Strconv.{atoi, scan_digits}
use g_cn_testbed_k8s.Strconv.Digits.{Digits, print, value, parse_uint-print}
use g_cn_testbed_k8s.Scenario.Numbers.{
  Signed, add_int, pred_int, format, width, last_digits, last_digits-Digits, length-last_digits,
  value-last_digits,
}

abbrev pub decimal_char : ℕ → ℕ
decimal_char d = b'0' + d

abbrev pub upper_hex_char : ℕ → ℕ
upper_hex_char d = if ltb d 10 then b'0' + d else b'A' + d - 10

-- `msin_int + (i - 1)`
unfoldable pub shifted : Signed → ℕ → Signed
shifted v i = if i == 0 then pred_int v else add_int v (i - 1)

-- `IncrementMsin`
unfoldable pub increment_msin : ℕ → Text → Result Text
increment_msin i msin = elim (atoi msin) [
  | none ↦ fatal
  | some v ↦ ok (format 10 (if length msin == 9 then 9 else 10) decimal_char (shifted v i))
]

-- `strconv.ParseInt(s, 16, 0)`
unfoldable pub parse_hex : Text → Option Signed
parse_hex [] = none
parse_hex (c ∷ s) =
    if c == b'-'
    then elim s [
      | [] ↦ none
      | d ∷ r ↦ elim (scan_digits 16 (2 ^ 63) false (d ∷ r) 0) [
        | none ↦ none
        | some n ↦ some (true, n)
      ]
    ]
    else elim (if c == b'+' then s else c ∷ s) [
      | [] ↦ none
      | d ∷ r ↦ elim (scan_digits 16 (2 ^ 63 - 1) false (d ∷ r) 0) [
        | none ↦ none
        | some n ↦ some (false, n)
      ]
    ]

-- `gnbIdGenerator`
unfoldable pub gnb_id_generator : ℕ → Text → Result Text
gnb_id_generator i gnb_id = elim (parse_hex gnb_id) [
  | none ↦ fatal
  | some v ↦ ok (format 16 6 upper_hex_char (add_int v i))
]

map-print : (ds : List ℕ) → map decimal_char ds ≡ print ds
map-print [] = refl
map-print (d ∷ ds) = ap (λ (s : Text). (b'0' + d) ∷ s) (map-print ds)

atoi-print :
    (d : ℕ) (ds : List ℕ)
    → Digits (d ∷ ds)
    → value (d ∷ ds) < 2 ^ 63
    → atoi (print (d ∷ ds)) ≡ some (false, value (d ∷ ds))
unfolding atoi
atoi-print d ds (h, hs) l = ground (arith, parse_uint-print 64 d ds (h, hs))

length-print : (ds : List ℕ) → length (print ds) ≡ length ds
length-print [] = refl
length-print (d ∷ ds) = let rest = length-print ds in omega arith

-- A number with room in `w` digits is printed with just these.
format-digits :
    (w n : ℕ) → n < 10 ^ w → format 10 w decimal_char (false, n) ≡ print (last_digits 10 w n)
unfolding format width
format-digits w n h = ground (arith, map-print (last_digits 10 w n))

shifted-eq : (v i : ℕ) → 1 ≤ i → v + (i - 1) < 2 ^ 63 → shifted (false, v) i ≡ (false, v + (i - 1))
unfolding shifted add_int
shifted-eq v i h l = ground arith

-- The width of an MSIN has room only for numbers of 63 bits.
small : (b : Bool) (n : ℕ) → n < 10 ^ (if b then 9 else 10) → n < 2 ^ 63
small true n h = omega arith
small false n h = omega arith

-- The MSIN of UE `i`, counted from 1, is the configured one and `i - 1`: a configured MSIN of decimal
-- digits gives 9 digits if it has 9 and else 10, as long as the sum has room in them.
pub increment_msin-value :
    (i d : ℕ) (ds : List ℕ)
    → 1 ≤ i
    → Digits (d ∷ ds)
    → value (d ∷ ds) + (i - 1) < 10 ^ (if length (d ∷ ds) == 9 then 9 else 10)
    → (es : List ℕ) × (increment_msin i (print (d ∷ ds)) ≡ ok (print es))
      × Digits es
      × (length es ≡ (if length (d ∷ ds) == 9 then 9 else 10))
      × (value es ≡ value (d ∷ ds) + (i - 1))
unfolding increment_msin last_digits
increment_msin-value i d ds one h room =
    let w : ℕ = if length (d ∷ ds) == 9 then 9 else 10 in
    let n : ℕ = value (d ∷ ds) + (i - 1) in
    (
      last_digits 10 w n,
      rw
          (
            atoi-print d ds h (omega (arith, small (length (d ∷ ds) == 9) n room)),
            length-print (d ∷ ds),
            shifted-eq (value (d ∷ ds)) i one (small (length (d ∷ ds) == 9) n room),
            format-digits w n room,
            increment_msin,
          )
          refl,
      last_digits-Digits w n,
      length-last_digits w n,
      value-last_digits w n room,
    )
