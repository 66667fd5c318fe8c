-- ===== src/Plmn/Routing.antt =====
-- The octets of the routing indicator.
use g_cn_testbed_k8s.Base.{
  ℕ, ◌<◌, ◌+◌, ◌*◌, ◌≡◌, ◌≤◌, List, [], ◌∷◌, Text, ok, fatal, arith, length,
}
use g_cn_testbed_k8s.Strconv.Digits.{Digits, print}
use g_cn_testbed_k8s.Plmn.{routing_indicator_in_octets}
use g_cn_testbed_k8s.Plmn.Octets.{
  hex_decode-digits, hex_decode-padded, hex_decode-pad, hex_decode-nil,
}

-- BCD, least significant digit first, filled up with 15.
abbrev pub bcd : List ℕ → List ℕ
bcd [] = (15 * 16 + 0) ∷ (15 * 16 + 15) ∷ []
bcd (a ∷ []) = (15 * 16 + a) ∷ (15 * 16 + 15) ∷ []
bcd (a ∷ b ∷ []) = (b * 16 + a) ∷ (15 * 16 + 15) ∷ []
bcd (a ∷ b ∷ c ∷ []) = (b * 16 + a) ∷ (15 * 16 + c) ∷ []
bcd (a ∷ b ∷ c ∷ d ∷ r) = (b * 16 + a) ∷ (d * 16 + c) ∷ []

abbrev pub kept : List ℕ → List ℕ
kept [] = 0 ∷ []
kept ds = ds

-- An indicator of at most four digits is coded in two octets of BCD, filled up with 15; the
-- empty one counts as a single 0, and is kept so.
pub routing-bcd :
    (ds : List ℕ)
    → Digits ds
    → length ds ≤ 4
    → routing_indicator_in_octets (print ds) ≡ ok (print (kept ds), bcd ds)
unfolding routing_indicator_in_octets
routing-bcd [] h l = rw (hex_decode-padded 0 _ (omega arith), hex_decode-pad, hex_decode-nil)
routing-bcd (a ∷ []) h l = rw (hex_decode-padded a _ (omega arith), hex_decode-pad, hex_decode-nil)
routing-bcd (a ∷ b ∷ []) h l =
    rw (hex_decode-digits b a _ (omega arith) (omega arith), hex_decode-pad, hex_decode-nil)
routing-bcd (a ∷ b ∷ c ∷ []) h l = rw (
  hex_decode-digits b a _ (omega arith) (omega arith),
  hex_decode-padded c _ (omega arith),
  hex_decode-nil,
)
routing-bcd (a ∷ b ∷ c ∷ d ∷ []) h l = rw (
  hex_decode-digits b a _ (omega arith) (omega arith),
  hex_decode-digits d c _ (omega arith) (omega arith),
  hex_decode-nil,
)
routing-bcd (a ∷ b ∷ c ∷ d ∷ e ∷ r) h l = absurd (omega arith)

-- A longer indicator ends the process.
routing_too_long : (s : Text) → 4 < length s → routing_indicator_in_octets s ≡ fatal
unfolding routing_indicator_in_octets
routing_too_long s l = ground arith
