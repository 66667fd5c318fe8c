-- ===== src/Plmn.antt =====
-- Network and routing identities as octets: `GetMccAndMncInOctets` of
-- PacketRusher/internal/control_test_engine/gnb/context/context.go and of
-- PacketRusher/internal/control_test_engine/ue/context/context.go, `convertMccMnc` of
-- gnb/context/amf.go, and `GetRoutingIndicatorInOctets` of ue/context/context.go.
-- A string is its bytes, which are ASCII here, so `reverse` of Go walks the same elements.
pub mod Octets
pub mod Routing
use g_cn_testbed_k8s.Base.{
  ℕ, ◌<◌, ◌/◌, ◌%◌, zero, suc, Bool, List, [], ◌∷◌, ◌++◌, reverse, some, Text, codes, length,
  get_elem?, ◌==◌, ltb, if◌then◌else◌, Result, ok, fatal, or_panic, ◌>>=◌, ◌>>◌, fatal_if,
  hex_decode, to_hex_char, not,
}

-- s[i]
unfoldable pub index : Text → ℕ → Result ℕ
index s i = or_panic (get_elem? s i)

-- The format verb `%x` on bytes.
unfoldable pub hex_encode : List ℕ → Text
unfolding to_hex_char
hex_encode [] = []
hex_encode (b ∷ bs) = to_hex_char (b / 16) ∷ to_hex_char (b % 16) ∷ hex_encode bs

gnb_octets_text : Text → Text → Result Text
unfolding index
gnb_octets_text mcc mnc =
    if length mnc == 2
    then (do
      a ← index mcc 1
      b ← index mcc 2
      c ← index mcc 0
      d ← index mnc 0
      e ← index mnc 1
      ok (a ∷ b ∷ b'f' ∷ c ∷ d ∷ e ∷ []))
    else (do
      a ← index mcc 1
      b ← index mcc 2
      c ← index mnc 2
      d ← index mcc 0
      e ← index mnc 0
      f ← index mnc 1
      ok (a ∷ b ∷ c ∷ d ∷ e ∷ f ∷ []))

-- `GetMccAndMncInOctets` of the gNodeB; the error of `hex.DecodeString` is dropped.
unfoldable pub gnb_mcc_and_mnc_in_octets : Text → Text → Result (List ℕ)
unfolding gnb_octets_text
gnb_mcc_and_mnc_in_octets mcc mnc = do
  res ← gnb_octets_text (reverse mcc) (reverse mnc)
  ok (hex_decode res).0

ue_octets_text : Text → Text → Result Text
unfolding index
ue_octets_text mcc mnc =
    if length mnc == 2
    then (do
      a ← index mcc 1
      b ← index mcc 2
      c ← index mcc 0
      d ← index mnc 0
      e ← index mnc 1
      ok (a ∷ b ∷ b'f' ∷ c ∷ d ∷ e ∷ []))
    else (do
      a ← index mcc 1
      b ← index mcc 2
      c ← index mnc 0
      d ← index mcc 0
      e ← index mnc 1
      f ← index mnc 2
      ok (a ∷ b ∷ c ∷ d ∷ e ∷ f ∷ []))

-- `GetMccAndMncInOctets` of the UE.
unfoldable pub ue_mcc_and_mnc_in_octets : Text → Text → Result (List ℕ)
unfolding ue_octets_text
ue_mcc_and_mnc_in_octets mcc mnc = do
  res ← ue_octets_text (reverse mcc) (reverse mnc)
  ok (hex_decode res).0

-- `convertMccMnc`: the MCC and the MNC of a PLMN in hexadecimal.
unfoldable pub convert_mcc_mnc : Text → Result (Text × Text)
unfolding index
convert_mcc_mnc plmn = do
  p2 ← index plmn 2
  p1 ← index plmn 1
  p0 ← index plmn 0
  p3 ← index plmn 3
  p5 ← index plmn 5
  p4 ← index plmn 4
  if p2 == b'f'
      then ok (p1 ∷ p0 ∷ p3 ∷ [], p5 ∷ p4 ∷ [])
      else ok (p1 ∷ p0 ∷ p3 ∷ [], p2 ∷ p5 ∷ p4 ∷ [])

-- `for len(routingIndicator) < 4 { append 'F' }`: at most four rounds.
pad_routing : ℕ → Text → Text
pad_routing zero s = s
pad_routing (suc n) s = pad_routing n (if ltb (length s) 4 then s ++ b'F' ∷ [] else s)

-- The bytes change places two by two.
swap_pairs : Text → Text
swap_pairs (a ∷ b ∷ s) = b ∷ a ∷ swap_pairs s
swap_pairs s = s

-- `GetRoutingIndicatorInOctets`: the indicator that the UE keeps, and its octets.
unfoldable pub routing_indicator_in_octets : Text → Result (Text × List ℕ)
unfolding pad_routing swap_pairs
routing_indicator_in_octets indicator =
    let kept = if length indicator == 0 then codes "0" else indicator in
    let octets = hex_decode (swap_pairs (pad_routing 4 kept)) in
    (do fatal_if (ltb 4 (length kept)); fatal_if (not octets.1); ok (kept, octets.0))
