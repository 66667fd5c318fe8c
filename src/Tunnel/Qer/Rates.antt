-- ===== src/Tunnel/Qer/Rates.antt =====
-- The bit rates of QoS enforcement rules.
use g_cn_testbed_k8s.Base.{
  ℕ, ◌+◌, ◌*◌, ◌/◌, ◌%◌, ◌^◌, ◌<◌, ◌≡◌, Option-cases, inl, inr, some, Text, arith,
}
use g_cn_testbed_k8s.Strconv.{parse_uint_any}
use g_cn_testbed_k8s.Strconv.Bounds.{parse_uint_any-lt}
use g_cn_testbed_k8s.Tunnel.Attributes.{AttrType, num, add}
use g_cn_testbed_k8s.Tunnel.Parser.{CmdParser, parsed, get_token, argument}
use g_cn_testbed_k8s.Tunnel.Qer.{QerOptions, qer_mbr_option}

-- An option for a maximum rate that is accepted has taken one token, a number below 2 ^ 40, and added
-- two attributes to the maximum rates and nothing else: the high 32 bits and the low 8 of just that
-- number, of which nothing is lost.
pub mbr_option-parts :
    (high low : AttrType) (opt : Text) (p q : CmdParser) (s t : QerOptions)
    → qer_mbr_option high low opt p s ≡ parsed (q, t)
    → (arg : Text) × (v : ℕ) × (a : ℕ) × (b : ℕ) × (get_token p ≡ some (arg, q))
      × (parse_uint_any 40 arg ≡ some v)
      × (t ≡ record s { mbrv = add (add s.mbrv (num 32 high a)) (num 8 low b) })
      × (a * 2 ^ 8 + b ≡ v)
      × (a < 2 ^ 32)
      × (b < 2 ^ 8)
unfolding qer_mbr_option argument
mbr_option-parts high low opt p q s t h = elim (Option-cases (get_token p)) [
  | inl e ↦ absurd (ground arith)
  | inr ((arg, p'), e) ↦ elim (Option-cases (parse_uint_any 40 arg)) [
    | inl x ↦ absurd (ground arith)
    | inr (v, x) ↦
        let small = parse_uint_any-lt 40 arg v x in
        (
          arg,
          v,
          v / 2 ^ 8 % 2 ^ 32,
          v % 2 ^ 8,
          ground arith,
          x,
          ground arith,
          omega arith,
          omega arith,
          omega arith,
        )
  ]
]
