-- ===== src/Gnb/Ngap/Amf.antt =====
-- `HandlerNgSetupResponse` and `HandlerNgSetupFailure` of
-- PacketRusher/internal/control_test_engine/gnb/ngap/handler.go, and what the handlers of an AMF share.
pub mod Setup
use g_cn_testbed_k8s.Base.{
  ℕ, zero, suc, ◌+◌, Bool, true, false, not, ◌||◌, List, [], ◌∷◌, Option, none, some, Text, codes,
  Result, ok, panic, ◌>>=◌, ◌>>◌, fatal_if, or_panic, lookup, insert, ◌==◌, if◌then◌else◌, Map,
}
use g_cn_testbed_k8s.Plmn.{hex_encode}
use g_cn_testbed_k8s.Gnb.State.{Gnb, GnbAmf, active, inactive}
use g_cn_testbed_k8s.Gnb.Amf.{added_plmn, added_slice, get_plmn_support, get_slice_support}
use g_cn_testbed_k8s.Gnb.Ngap.{
  Ie, amf_name, served_guami_list, relative_amf_capacity, plmn_support_list, Guami, PlmnSupport,
  Snssai,
}

abbrev pub put_amf : Gnb → ℕ → GnbAmf → Gnb
put_amf g id amf = record g { amf_heap = insert id amf g.amf_heap }

unfoldable pub deref_amf : Gnb → ℕ → Result GnbAmf
deref_amf g id = or_panic (lookup id g.amf_heap)

abbrev pub was_not_informed : Option (List ℕ) → Text
was_not_informed none = codes "was not informed"
was_not_informed (some v) = hex_encode v

-- The loop over the slices of a PLMN.
unfoldable pub add_slices : GnbAmf → List Snssai → Result GnbAmf
add_slices amf [] = ok amf
add_slices amf (s ∷ l) =
    added_slice amf (was_not_informed s.sst) (was_not_informed s.sd) >>= λ amf'. add_slices amf' l

abbrev pub slices_of : Option (List Snssai) → List Snssai
slices_of none = []
slices_of (some l) = l

abbrev pub is_none {ℓ} : {A : Type ℓ} → Option A → Bool
is_none none = true
is_none (some a) = false

-- The loop over the PLMN support list: the AMF, and whether something was missing.
unfoldable pub add_plmns : GnbAmf → List PlmnSupport → Bool → Result (GnbAmf × Bool)
unfolding add_slices
add_plmns amf [] err = ok (amf, err)
add_plmns amf (p ∷ l) err = do
  amf1 ← added_plmn amf (hex_encode p.plmn)
  amf2 ← add_slices amf1 (slices_of p.slices)
  add_plmns amf2 l (err || is_none p.slices)

pub guami_incomplete : List (Guami × Bool × Bool × Bool) → Bool
guami_incomplete [] = false
guami_incomplete ((_, region, pointer, set) ∷ l) =
    not region || (not pointer || (not set || guami_incomplete l))

-- The loop over the elements of an NG Setup Response. A nil list of GUAMIs is walked as an empty
-- one; a nil PLMN support list is used.
unfoldable pub scan_setup : List Ie → GnbAmf → Bool → Result (GnbAmf × Bool)
unfolding add_plmns guami_incomplete
scan_setup [] amf err = ok (amf, err)
scan_setup (amf_name none ∷ l) amf err = scan_setup l amf true
scan_setup (amf_name (some n) ∷ l) amf err = scan_setup l (record amf { name = n }) err
scan_setup (served_guami_list none ∷ l) amf err = scan_setup l amf true
scan_setup (served_guami_list (some v) ∷ l) amf err = scan_setup l amf (err || guami_incomplete v)
scan_setup (relative_amf_capacity none ∷ l) amf err = scan_setup l amf err
scan_setup (relative_amf_capacity (some v) ∷ l) amf err =
    scan_setup l (record amf { relative_amf_capacity = v }) err
scan_setup (plmn_support_list none ∷ l) amf err = panic
scan_setup (plmn_support_list (some v) ∷ l) amf err =
    add_plmns amf v err >>= λ r. scan_setup l r.0 r.1
scan_setup (_ ∷ l) amf err = scan_setup l amf err

-- `for i := 0; i < n; i++` around a read, from `i` on with the rounds that are left.
unfoldable pub read_up_to {ℓ} : {A : Type ℓ} → (ℕ → Result A) → ℕ → ℕ → Result (Unit {0})
read_up_to read zero i = ok tt
read_up_to read (suc n) i = read i >>= λ _. read_up_to read n (i + 1)

-- `HandlerNgSetupResponse`, with the loops that log each PLMN and slice up to the counts.
unfoldable pub handler_ng_setup_response : Gnb → ℕ → List Ie → Result Gnb
unfolding scan_setup deref_amf
handler_ng_setup_response g id ies = do
  amf ← deref_amf g id
  (amf', err) ← scan_setup ies amf false
  fatal_if err
  read_up_to (get_plmn_support amf') amf'.len_plmn 0
  read_up_to (get_slice_support amf') amf'.len_slice 0
  ok (put_amf g id (record amf' { state = active }))

-- `HandlerNgSetupFailure`; the cause is only logged.
unfoldable pub handler_ng_setup_failure : Gnb → ℕ → Result Gnb
unfolding deref_amf
handler_ng_setup_failure g id =
    deref_amf g id >>= λ amf. ok (put_amf g id (record amf { state = inactive }))

-- The first AMF of the pool, in the order in which `Range` visits it, that passes a test.
unfoldable pub find_amf : Map GnbAmf → List ℕ → (GnbAmf → Bool) → Option (ℕ × GnbAmf)
find_amf heap [] test = none
find_amf heap (id ∷ ids) test =
    let rest = find_amf heap ids test in
    elim (lookup id heap) [ none ↦ rest | some amf ↦ if test amf then some (id, amf) else rest ]

-- `amfPool.Delete`
unfoldable pub remove_id : ℕ → List ℕ → List ℕ
remove_id id [] = []
remove_id id (x ∷ xs) = let rest = remove_id id xs in if x == id then rest else x ∷ rest
