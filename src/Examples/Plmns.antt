-- ===== src/Examples/Plmns.antt =====
-- Examples for the PLMNs.
use g_cn_testbed_k8s.Base.{ℕ, ◌≡◌, List, [], ◌∷◌, ok, arith, ◌>>=◌}
use g_cn_testbed_k8s.Strconv.Digits.{print}
use g_cn_testbed_k8s.Plmn.{gnb_mcc_and_mnc_in_octets, convert_mcc_mnc, hex_encode}
use g_cn_testbed_k8s.Plmn.Octets.{convert-gnb_octets}

abbrev mcc : List ℕ
mcc = 2 ∷ 0 ∷ 8 ∷ []

abbrev mnc : List ℕ
mnc = 9 ∷ 3 ∷ []

convert-gnb_octets_example :
    (gnb_mcc_and_mnc_in_octets (print mcc) (print mnc) >>= λ octets.
    convert_mcc_mnc (hex_encode octets))
    ≡ ok (print mcc, print mnc)
convert-gnb_octets_example = convert-gnb_octets mcc mnc (omega arith) (omega arith)
