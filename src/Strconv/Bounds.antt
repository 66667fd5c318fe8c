-- ===== src/Strconv/Bounds.antt =====
-- What `ParseUint` returns fits the width that was asked for.
use g_cn_testbed_k8s.Base.{
  ℕ, zero, suc, ◌+◌, ◌-◌, ◌*◌, ◌^◌, ◌≤◌, ◌<◌, ◌≡◌, Bool, Bool-cases, Option-cases, inl, inr, true,
  false, ◌&&◌, ◌||◌, [], ◌∷◌, some, Text, arith, ltb, leb, ◌==◌,
}
use g_cn_testbed_k8s.Strconv.{scan_digits, digit_value, parse_uint, parse_uint_any, split_base}

scan-le :
    (base bound : ℕ) (u : Bool) (s : Text) (n r : ℕ)
    → n ≤ bound
    → scan_digits base bound u s n ≡ some r
    → r ≤ bound
unfolding scan_digits
scan-le base bound u [] n r h e = ground arith
scan-le base bound u (c ∷ s) n r h e = elim (Bool-cases (c == b'_' && u)) [
  | inl skip ↦ scan-le base bound u s n r h (ground arith)
  | inr read ↦ elim (Option-cases (digit_value c)) [
    | inl x ↦ absurd (ground arith)
    | inr (d, x) ↦ elim (Bool-cases (leb base d || ltb bound (n * base + d))) [
      | inl big ↦ absurd (ground arith)
      | inr fits ↦ scan-le base bound u s (n * base + d) r (ground arith) (ground arith)
    ]
  ]
]

pos_pow : (n : ℕ) → 0 < 2 ^ n
pos_pow zero = omega arith
pos_pow (suc n) = omega (arith, pos_pow n)

pub parse_uint-lt : (bits : ℕ) (s : Text) (r : ℕ) → parse_uint bits s ≡ some r → r < 2 ^ bits
unfolding parse_uint
parse_uint-lt bits [] r h = absurd (ground arith)
parse_uint-lt bits (c ∷ s) r h =
    omega (arith, scan-le 10 (2 ^ bits - 1) false (c ∷ s) 0 r (omega arith) h, pos_pow bits)

pub parse_uint_any-lt :
    (bits : ℕ) (s : Text) (r : ℕ) → parse_uint_any bits s ≡ some r → r < 2 ^ bits
unfolding parse_uint_any
parse_uint_any-lt bits [] r h = absurd (ground arith)
parse_uint_any-lt bits (c ∷ s) r h =
    let split = split_base (c ∷ s) in
    elim (Option-cases (scan_digits split.0 (2 ^ bits - 1) true split.1 0)) [
      | inl x ↦ absurd (ground arith)
      | inr (n, x) ↦ omega (
        arith,
        scan-le split.0 (2 ^ bits - 1) true split.1 0 n (omega arith) x,
        pos_pow bits,
        let same : n ≡ r = ground arith in same,
      )
    ]
