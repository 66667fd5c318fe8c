-- ===== src/Gnb/Ngap/Amf/Setup.antt =====
-- What an NG Setup Response leaves: `HandlerNgSetupResponse`.
use g_cn_testbed_k8s.Base.{
  ℕ, zero, suc, ◌+◌, ◌≤◌, ◌≡◌, refl, ap, subst, Bool, true, false, List, [], ◌∷◌, ◌++◌, none, some,
  Text, Result, ok, arith, >>=-eq-ok, map, length, get_elem?, get_elem?_total, lookup,
  length-append, Result-cases, inl, inr, ◌||◌,
}
use mathlib.Core.List.{append_assoc, append-nil}
use g_cn_testbed_k8s.Plmn.{hex_encode, convert_mcc_mnc}
use g_cn_testbed_k8s.Gnb.State.{Gnb, GnbAmf, Slice, active}
use g_cn_testbed_k8s.Gnb.Amf.{added_plmn, get_plmn_support, get_slice_support}
use g_cn_testbed_k8s.Gnb.Amf.Lists.{IsCounted, added_slice-append, added_plmn-append}
use g_cn_testbed_k8s.Gnb.Ngap.{Snssai, PlmnSupport, Ie}
use g_cn_testbed_k8s.Gnb.Ngap.Amf.{
  add_slices, was_not_informed, slices_of, is_none, guami_incomplete, add_plmns, read_up_to,
  scan_setup, handler_ng_setup_response, deref_amf, put_amf,
}

abbrev pub slice_of : Snssai → Slice
slice_of s = record { sst = was_not_informed s.sst; sd = was_not_informed s.sd }

-- The slices that a PLMN of the response lists are put at the end of the list of the AMF, in their
-- order, with nothing lost and the counter kept right.
pub add_slices-append :
    (l : List Snssai) (amf : GnbAmf)
    → IsCounted amf
    → add_slices amf l
      ≡ ok (record amf {
        slices = amf.slices ++ map slice_of l;
        len_slice = amf.len_slice + length l;
      })
unfolding add_slices
add_slices-append [] amf v = ground (arith, append-nil amf.slices)
add_slices-append (s ∷ l) amf v =
    let amf' = record amf {
      slices = amf.slices ++ slice_of s ∷ [];
      len_slice = amf.len_slice + 1;
    } in
    let v' : IsCounted amf' = record {
      plmn_count = v.plmn_count;
      slice_count = ground (arith, v.slice_count, length-append amf.slices (slice_of s ∷ []));
    } in
    ground (
      arith,
      added_slice-append amf (was_not_informed s.sst) (was_not_informed s.sd) v,
      add_slices-append l amf' v',
      append_assoc amf.slices (slice_of s ∷ []) (map slice_of l),
    )

length-map : (l : List Snssai) → length (map slice_of l) ≡ length l
length-map [] = refl
length-map (s ∷ l) = ap suc (length-map l)

slices-IsCounted :
    (amf u : GnbAmf) (l : List Snssai) → IsCounted amf → add_slices amf l ≡ ok u → IsCounted u
slices-IsCounted amf u l v h =
    let same : record amf {
      slices = amf.slices ++ map slice_of l;
      len_slice = amf.len_slice + length l;
    }
        ≡ u =
      ground (arith, add_slices-append l amf v) in
    subst IsCounted same (record {
      plmn_count = v.plmn_count;
      slice_count =
          ground (arith, v.slice_count, length-append amf.slices (map slice_of l), length-map l);
    })

converts :
    (amf u : GnbAmf) (plmn : Text)
    → added_plmn amf plmn ≡ ok u
    → (ids : Text × Text) × (convert_mcc_mnc plmn ≡ ok ids)
unfolding added_plmn
converts amf u plmn h = elim (Result-cases (convert_mcc_mnc plmn)) [
  | inl s ↦ s
  | inr (inl e) ↦ absurd (ground arith)
  | inr (inr (inl e)) ↦ absurd (ground arith)
  | inr (inr (inr e)) ↦ absurd (ground arith)
]

added-IsCounted :
    (amf u : GnbAmf) (plmn : Text) → IsCounted amf → added_plmn amf plmn ≡ ok u → IsCounted u
unfolding added_plmn
added-IsCounted amf u plmn v h =
    let ((mcc, mnc), e) = converts amf u plmn h in
    let c = added_plmn-append amf plmn mcc mnc v e in
    let same : record amf {
      plmns = amf.plmns ++ record { mcc = mcc; mnc = mnc } ∷ [];
      len_plmn = amf.len_plmn + 1;
    }
        ≡ u =
      ground (arith, c) in
    subst IsCounted same (record {
      plmn_count =
          ground
            (arith, v.plmn_count, length-append amf.plmns (record { mcc = mcc; mnc = mnc } ∷ []));
      slice_count = v.slice_count;
    })

-- The loops that log the PLMNs and the slices of an AMF whose counters are right read every entry.
pub read_up_to-total {ℓ κ} :
    {A : Type ℓ} {B : Type κ} (l : List A) (f : A → B) (read : ℕ → Result B)
    → ((i : ℕ) (a : A) → get_elem? l i ≡ some a → read i ≡ ok (f a))
    → (n i : ℕ) → i + n ≤ length l
    → read_up_to read n i ≡ ok tt
unfolding read_up_to
read_up_to-total l f read r zero i h = refl
read_up_to-total l f read r (suc n) i h =
    let (a, e) = get_elem?_total l i (omega arith) in
    rw (r i a e) (read_up_to-total l f read r n (i + 1) (omega arith))

read_plmns :
    (amf : GnbAmf) → IsCounted amf → read_up_to (get_plmn_support amf) amf.len_plmn 0 ≡ ok tt
unfolding get_plmn_support
read_plmns amf v =
    read_up_to-total amf.plmns (λ m. (m.mcc, m.mnc)) (get_plmn_support amf)
      (λ i a e. ground (arith, e)) amf.len_plmn 0 (omega (arith, v.plmn_count))

read_slices :
    (amf : GnbAmf) → IsCounted amf → read_up_to (get_slice_support amf) amf.len_slice 0 ≡ ok tt
unfolding get_slice_support
read_slices amf v =
    read_up_to-total amf.slices (λ m. (m.sst, m.sd)) (get_slice_support amf)
      (λ i a e. ground (arith, e)) amf.len_slice 0 (omega (arith, v.slice_count))

fst-eq :
    (a b : GnbAmf) (e f : Bool) → ◌≡◌ {A = Result (GnbAmf × Bool)} (ok (a, e)) (ok (b, f)) → a ≡ b
fst-eq a b e f h = ground arith

plmns-IsCounted :
    (l : List PlmnSupport) (amf u : GnbAmf) (e f : Bool)
    → IsCounted amf
    → add_plmns amf l e ≡ ok (u, f)
    → IsCounted u
unfolding add_plmns
plmns-IsCounted [] amf u e f v h = subst IsCounted (fst-eq amf u e f h) v
plmns-IsCounted (p ∷ l) amf u e f v h =
    let (a, d, h1) = >>=-eq-ok (added_plmn amf (hex_encode p.plmn)) _ h in
    let w = added-IsCounted amf a (hex_encode p.plmn) v d in
    let (b, c, h2) = >>=-eq-ok (add_slices a (slices_of p.slices)) _ h1 in
    plmns-IsCounted l b u (e || is_none p.slices) f (slices-IsCounted a b (slices_of p.slices) w c)
      h2

scan-IsCounted :
    (ies : List Ie) (amf u : GnbAmf) (e f : Bool)
    → IsCounted amf
    → scan_setup ies amf e ≡ ok (u, f)
    → IsCounted u
unfolding scan_setup
scan-IsCounted [] amf u e f v h = subst IsCounted (fst-eq amf u e f h) v
scan-IsCounted (Ie.amf_name none ∷ l) amf u e f v h = scan-IsCounted l amf u true f v h
scan-IsCounted (Ie.amf_name (some n) ∷ l) amf u e f v h =
    scan-IsCounted l (record amf { name = n }) u e f
      (record { plmn_count = v.plmn_count; slice_count = v.slice_count }) h
scan-IsCounted (Ie.served_guami_list none ∷ l) amf u e f v h = scan-IsCounted l amf u true f v h
scan-IsCounted (Ie.served_guami_list (some w) ∷ l) amf u e f v h =
    scan-IsCounted l amf u (e || guami_incomplete w) f v h
scan-IsCounted (Ie.relative_amf_capacity none ∷ l) amf u e f v h = scan-IsCounted l amf u e f v h
scan-IsCounted (Ie.relative_amf_capacity (some w) ∷ l) amf u e f v h =
    scan-IsCounted l (record amf { relative_amf_capacity = w }) u e f
      (record { plmn_count = v.plmn_count; slice_count = v.slice_count }) h
scan-IsCounted (Ie.plmn_support_list none ∷ l) amf u e f v h = absurd (ground arith)
scan-IsCounted (Ie.plmn_support_list (some w) ∷ l) amf u e f v h =
    let ((a, d), c, k) = >>=-eq-ok (add_plmns amf w e) _ h in
    scan-IsCounted l a u d f (plmns-IsCounted w amf a e d v c) k
scan-IsCounted (Ie.amf_ue_ngap_id w ∷ l) amf u e f v h = scan-IsCounted l amf u e f v h
scan-IsCounted (Ie.ran_ue_ngap_id w ∷ l) amf u e f v h = scan-IsCounted l amf u e f v h
scan-IsCounted (Ie.nas_pdu w ∷ l) amf u e f v h = scan-IsCounted l amf u e f v h
scan-IsCounted (Ie.security_key w ∷ l) amf u e f v h = scan-IsCounted l amf u e f v h
scan-IsCounted (Ie.guami w ∷ l) amf u e f v h = scan-IsCounted l amf u e f v h
scan-IsCounted (Ie.allowed_nssai w ∷ l) amf u e f v h = scan-IsCounted l amf u e f v h
scan-IsCounted (Ie.mobility_restriction_list w ∷ l) amf u e f v h = scan-IsCounted l amf u e f v h
scan-IsCounted (Ie.masked_imeisv w ∷ l) amf u e f v h = scan-IsCounted l amf u e f v h
scan-IsCounted (Ie.ue_security_capabilities w ∷ l) amf u e f v h = scan-IsCounted l amf u e f v h
scan-IsCounted (Ie.setup_list w ∷ l) amf u e f v h = scan-IsCounted l amf u e f v h
scan-IsCounted (Ie.release_list w ∷ l) amf u e f v h = scan-IsCounted l amf u e f v h
scan-IsCounted (Ie.ue_ngap_ids w ∷ l) amf u e f v h = scan-IsCounted l amf u e f v h
scan-IsCounted (Ie.switched_list w ∷ l) amf u e f v h = scan-IsCounted l amf u e f v h
scan-IsCounted (Ie.source_to_target_container w ∷ l) amf u e f v h = scan-IsCounted l amf u e f v h
scan-IsCounted (Ie.handover_list w ∷ l) amf u e f v h = scan-IsCounted l amf u e f v h
scan-IsCounted (Ie.ue_paging_identity w ∷ l) amf u e f v h = scan-IsCounted l amf u e f v h
scan-IsCounted (Ie.tai_list_for_paging w ∷ l) amf u e f v h = scan-IsCounted l amf u e f v h
scan-IsCounted (Ie.to_add_list w ∷ l) amf u e f v h = scan-IsCounted l amf u e f v h
scan-IsCounted (Ie.to_remove_list w ∷ l) amf u e f v h = scan-IsCounted l amf u e f v h
scan-IsCounted (Ie.to_update_list w ∷ l) amf u e f v h = scan-IsCounted l amf u e f v h
scan-IsCounted (Ie.unavailable_guami_list w ∷ l) amf u e f v h = scan-IsCounted l amf u e f v h
scan-IsCounted (Ie.other_ie ∷ l) amf u e f v h = scan-IsCounted l amf u e f v h

-- A response with nothing missing makes the AMF active, whatever it lists: the loops that log the
-- PLMNs and the slices up to the counters find every entry, if the counters of the AMF were right
-- before.
pub setup-active :
    (g : Gnb) (id : ℕ) (ies : List Ie) (amf u : GnbAmf)
    → lookup id g.amf_heap ≡ some amf
    → IsCounted amf
    → scan_setup ies amf false ≡ ok (u, false)
    → IsCounted u
      × (handler_ng_setup_response g id ies ≡ ok (put_amf g id (record u { state = active })))
unfolding handler_ng_setup_response deref_amf
setup-active g id ies amf u l v s =
    let w = scan-IsCounted ies amf u false false v s in
    (w, ground (arith, read_plmns u w, read_slices u w))
