-- ===== src/Gnb/Ngap/Status/Rebind.antt =====
-- What `HandlerAmfStatusIndication` leaves of the UEs of an AMF that is gone.
use g_cn_testbed_k8s.Base.{
  ℕ, ◌≡◌, ◌≢◌, ◌⊎◌, [], ◌∷◌, some, arith, Map, lookup, insert, lookup-insert, Option-cases,
  Bool-cases, inl, inr, ◌==◌,
}
use g_cn_testbed_k8s.Gnb.State.{GnbUe, GnbAmf}
use g_cn_testbed_k8s.Gnb.Ngap.Status.{rebind}

abbrev bound : GnbUe → GnbAmf → GnbUe
bound ue backup = record ue { amf_id = backup.amf_id; sctp_connection = backup.tnla.sctp_conn }

-- A UE behind a pointer afterwards is as it was before, or is bound to the backup.
rebind-either :
    (heap : Map GnbUe) (pool : Map ℕ) (old p : ℕ) (backup : GnbAmf) (ue : GnbUe)
    → lookup p (rebind heap pool old backup) ≡ some ue
    → (lookup p heap ≡ some ue) ⊎ (ue.amf_id ≡ backup.amf_id)
unfolding rebind
rebind-either heap [] old p backup ue h = inl h
rebind-either heap ((k, q) ∷ pool) old p backup ue h = elim (Option-cases (lookup q heap)) [
  | inl e ↦ rebind-either heap pool old p backup ue (ground arith)
  | inr (u, e) ↦ elim (Bool-cases (u.amf_id == old)) [
    | inl t ↦
        elim (rebind-either (insert q (bound u backup) heap) pool old p backup ue (ground arith)) [
          | inl s ↦ elim (Bool-cases (q == p)) [
            | inl a ↦ inr (ground (arith, lookup-insert p q (bound u backup) heap))
            | inr b ↦ inl (ground (arith, lookup-insert p q (bound u backup) heap))
          ]
          | inr s ↦ inr s
        ]
    | inr f ↦ rebind-either heap pool old p backup ue (ground arith)
  ]
]

-- The step to the rest of the pool, with the heap that the first entry leaves.
rest-none_left :
    (heap : Map GnbUe) (pool : Map ℕ) (old j k p q : ℕ) (backup : GnbAmf) (ue : GnbUe)
    → backup.amf_id ≢ old
    → lookup k ((j, q) ∷ pool) ≡ some p
    → lookup p (rebind heap pool old backup) ≡ some ue
    → (q ≡ p → (u : GnbUe) → lookup p heap ≡ some u → u.amf_id ≢ old)
    → (lookup k pool ≡ some p → ue.amf_id ≢ old)
    → ue.amf_id ≢ old
unfolding lookup
rest-none_left heap pool old j k p q backup ue n m h first rest = elim (Bool-cases (j == k)) [
  | inl t ↦ elim (rebind-either heap pool old p backup ue h) [
    | inl s ↦ first (ground arith) ue s
    | inr s ↦ λ e. n (ground arith)
  ]
  | inr f ↦ rest (ground arith)
]

-- Once the loop over a pool of UEs has run, no UE that the pool leads to is still on the old AMF, if
-- the backup is another one.
pub rebind-none_left :
    (heap : Map GnbUe) (pool : Map ℕ) (old k p : ℕ) (backup : GnbAmf) (ue : GnbUe)
    → backup.amf_id ≢ old
    → lookup k pool ≡ some p
    → lookup p (rebind heap pool old backup) ≡ some ue
    → ue.amf_id ≢ old
unfolding rebind
rebind-none_left heap [] old k p backup ue n m h = absurd (unfold lookup in ground arith)
rebind-none_left heap ((j, q) ∷ pool) old k p backup ue n m h =
    elim (Option-cases (lookup q heap)) [
      | inl e ↦
          let r : lookup p (rebind heap pool old backup) ≡ some ue = ground arith in
          rest-none_left heap pool old j k p q backup ue n m r (λ a u l. absurd (ground arith))
            (λ l. rebind-none_left heap pool old k p backup ue n l r)
      | inr (v, e) ↦ elim (Bool-cases (v.amf_id == old)) [
        | inl t ↦
            let heap' = insert q (bound v backup) heap in
            let r : lookup p (rebind heap' pool old backup) ≡ some ue = ground arith in
            rest-none_left heap' pool old j k p q backup ue n m r
              (λ a u l s. n (ground (arith, lookup-insert p q (bound v backup) heap)))
              (λ l. rebind-none_left heap' pool old k p backup ue n l r)
        | inr f ↦
            let r : lookup p (rebind heap pool old backup) ≡ some ue = ground arith in
            rest-none_left heap pool old j k p q backup ue n m r (λ a u l s. ground arith)
              (λ l. rebind-none_left heap pool old k p backup ue n l r)
      ]
    ]
