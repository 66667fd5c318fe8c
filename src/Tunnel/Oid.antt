-- ===== src/Tunnel/Oid.antt =====
-- Object ids: `ParseOID` of PacketRusher/internal/cmd/gogtp5g-tunnel/oid.go.
use g_cn_testbed_k8s.Base.{
  ℕ, ◌-◌, ◌^◌, ◌≡◌, List, [], ◌∷◌, ◌++◌, Option, none, some, Text, arith, if◌then◌else◌, leb,
}
use g_cn_testbed_k8s.Strconv.{parse_uint, cut}
use g_cn_testbed_k8s.Strconv.Digits.{
  Digits, print, value, parse_uint-print, cut-print, cut-print_absent,
}

-- An id alone, or the id of a session and an id in it.
unfoldable pub parse_oid : Text → Option (List ℕ)
parse_oid s = elim (cut b':' s) [
  | none ↦ elim (parse_uint 32 s) [ none ↦ none | some id ↦ some (id ∷ []) ]
  | some (before, after) ↦ elim (parse_uint 64 before) [
    | none ↦ none
    | some seid ↦ elim (parse_uint 32 after) [ none ↦ none | some id ↦ some (seid ∷ id ∷ []) ]
  ]
]

-- An id that is written in decimal is read back, alone and behind the id of a session and a colon,
-- if they fit 32 and 64 bits; if one does not fit, the object id is refused.
pub parse_oid-print :
    (a d : ℕ) (bs ds : List ℕ)
    → Digits (a ∷ bs)
    → Digits (d ∷ ds)
    → (parse_oid (print (d ∷ ds))
        ≡ (if leb (value (d ∷ ds)) (2 ^ 32 - 1) then some (value (d ∷ ds) ∷ []) else none))
      × (parse_oid (print (a ∷ bs) ++ b':' ∷ print (d ∷ ds)) ≡ (
          if leb (value (a ∷ bs)) (2 ^ 64 - 1)
          then (if leb (value (d ∷ ds)) (2 ^ 32 - 1)
              then some (value (a ∷ bs) ∷ value (d ∷ ds) ∷ [])
              else none)
          else none))
unfolding parse_oid
parse_oid-print a d bs ds h k = (
  ground (arith, cut-print_absent b':' (d ∷ ds) k, parse_uint-print 32 d ds k),
  ground (
    arith,
    cut-print b':' (a ∷ bs) (print (d ∷ ds)) h,
    parse_uint-print 64 a bs h,
    parse_uint-print 32 d ds k,
  ),
)
