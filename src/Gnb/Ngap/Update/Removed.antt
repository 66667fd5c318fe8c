-- ===== src/Gnb/Ngap/Update/Removed.antt =====
-- Which associations `HandlerAmfConfigurationUpdate` closes.
use g_cn_testbed_k8s.Base.{
  ℕ, zero, suc, ◌+◌, ◌<◌, ◌≤◌, ◌≡◌, refl, ap, ◌∙◌, Bool, Bool-cases, Option-cases, inl, inr, List,
  [], ◌∷◌, ◌++◌, some, none, arith, ok, lookup, length, replicate, get_elem?, false, subst, Map,
  Result, ◌==◌,
}
use g_cn_testbed_k8s.Gnb.State.{Gnb, GnbAmf, Sent, released}
use g_cn_testbed_k8s.Gnb.Ngap.{Env, Association, Ie, to_remove_list}
use g_cn_testbed_k8s.Gnb.Ngap.Amf.{find_amf, remove_id, deref_amf}
use g_cn_testbed_k8s.Gnb.Ngap.Update.{
  Update, remove_association, is_association, ipv4_of, for_associations, scan_update,
}

remove_id-le : (id : ℕ) (pool : List ℕ) → length (remove_id id pool) ≤ length pool
unfolding remove_id
remove_id-le id [] = omega arith
remove_id-le id (x ∷ pool) =
    let rest = remove_id-le id pool in
    elim (Bool-cases (x == id)) [ inl e ↦ ground (arith, rest) | inr e ↦ ground (arith, rest) ]

-- An AMF that is found is in the pool, so the pool without it is shorter.
remove_found :
    (heap : Map GnbAmf) (pool : List ℕ) (test : GnbAmf → Bool) (id : ℕ) (old : GnbAmf)
    → find_amf heap pool test ≡ some (id, old)
    → length (remove_id id pool) < length pool
unfolding find_amf remove_id
remove_found heap [] test id old h = absurd (ground arith)
remove_found heap (x ∷ pool) test id old h = elim (Bool-cases (x == id)) [
  | inl e ↦ ground (arith, remove_id-le id pool)
  | inr e ↦
      let rest : find_amf heap pool test ≡ some (id, old) = elim (Option-cases (lookup x heap)) [
        | inl n ↦ ground arith
        | inr (amf, n) ↦ elim (Bool-cases (test amf)) [
          | inl t ↦ absurd (ground arith)
          | inr t ↦ ground arith
        ]
      ] in
      ground (arith, remove_found heap pool test id old rest)
]

replicate-add :
    (m n : ℕ) (x : Sent) (l : List Sent)
    → replicate m x ++ (replicate n x ++ l) ≡ replicate (m + n) x ++ l
replicate-add zero n x l =
    let same : n ≡ zero + n = omega arith in ap (λ k. replicate k x ++ l) same
replicate-add (suc m) n x l =
    let same : suc m + n ≡ suc (m + n) = omega arith in
    rw same (ap (λ (t : List Sent). x ∷ t) (replicate-add m n x l))

find_amf-none :
    (heap : Map GnbAmf) (pool : List ℕ) (test : GnbAmf → Bool)
    → find_amf heap pool test ≡ none
    → (i id : ℕ) (x : GnbAmf) → get_elem? pool i ≡ some id
    → lookup id heap ≡ some x
    → test x ≡ false
unfolding find_amf
find_amf-none heap [] test h i id x e l = absurd (ground arith)
find_amf-none heap (y ∷ pool) test h zero id x e l = elim (Bool-cases (test x)) [
  | inl t ↦ absurd (ground arith)
  | inr t ↦ t
]
find_amf-none heap (y ∷ pool) test h (suc i) id x e l =
    let rest : find_amf heap pool test ≡ none = elim (Option-cases (lookup y heap)) [
      | inl n ↦ ground arith
      | inr (amf, n) ↦ elim (Bool-cases (test amf)) [
        | inl t ↦ absurd (ground arith)
        | inr t ↦ ground arith
      ]
    ] in
    find_amf-none heap pool test rest i id x e l

module _ (env : Env) (sender : ℕ) (amf : GnbAmf) where
  -- No AMF of the pool has one of the addresses.
  abbrev pub Absent : Map GnbAmf → List ℕ → List Association → Type 0
  Absent heap pool [] = Unit
  Absent heap pool (a ∷ l) =
      ((i id : ℕ) (x : GnbAmf)
        → get_elem? pool i ≡ some id
        → lookup id heap ≡ some x
        → is_association env (ipv4_of env a) x ≡ false)
      × Absent heap pool l

  -- As many times as said the association of `amf` is closed, and the pool has lost an AMF for each;
  -- it is never only if no AMF of the pool has one of the addresses. Nothing else changes.
  pub record IsClosing (l : List Association) (g h : Gnb) (n : ℕ) : Type 0 where
    pub frame : h ≡ record g { amf_pool = h.amf_pool; sent = h.sent }
    pub closed : h.sent ≡ replicate n (released amf.tnla.sctp_conn) ++ g.sent
    pub shorter : length h.amf_pool + n ≤ length g.amf_pool
    pub untouched : n ≡ 0 → (h.amf_pool ≡ g.amf_pool) × Absent g.amf_heap g.amf_pool l

  removal-IsClosing :
      (g : Gnb) (a : Association)
      → lookup sender g.amf_heap ≡ some amf
      → (h : Gnb) × (n : ℕ) × (remove_association env g sender a ≡ ok h) × IsClosing (a ∷ []) g h n
  unfolding remove_association deref_amf
  removal-IsClosing g a s =
      elim (Option-cases (find_amf g.amf_heap g.amf_pool (is_association env (ipv4_of env a)))) [
        | inl f ↦ (
          g,
          0,
          ground arith,
          record {
            frame = refl;
            closed = refl;
            shorter = omega arith;
            untouched = λ z. (refl, (find_amf-none g.amf_heap g.amf_pool _ f, tt));
          },
        )
        | inr ((id, old), f) ↦ (
          record g {
            amf_pool = remove_id id g.amf_pool;
            sent = released amf.tnla.sctp_conn ∷ g.sent;
          },
          1,
          ground arith,
          record {
            frame = refl;
            closed = refl;
            shorter = omega (arith, remove_found g.amf_heap g.amf_pool _ id old f);
            untouched = λ z. absurd (omega arith);
          },
        )
      ]

  abbrev remove_all : Gnb → List Association → Result Gnb
  remove_all g l = for_associations env (λ h a. remove_association env h sender a) g l

  removals-next :
      (g h : Gnb) (a : Association) (l : List Association)
      → remove_association env g sender a ≡ ok h
      → remove_all g (a ∷ l) ≡ remove_all h l
  unfolding for_associations
  removals-next g h a l e = rw e refl

  IsClosing-add :
      (a : Association) (l : List Association) (g h k : Gnb) (n m : ℕ)
      → IsClosing (a ∷ []) g h n
      → IsClosing l h k m
      → IsClosing (a ∷ l) g k (m + n)
  IsClosing-add a l g h k n m v w = record {
    frame = w.frame ∙ ap (λ (x : Gnb). record x { amf_pool = k.amf_pool; sent = k.sent }) v.frame;
    closed =
        w.closed
        ∙ ap (λ (t : List Sent). replicate m (released amf.tnla.sctp_conn) ++ t) v.closed
        ∙ replicate-add m n (released amf.tnla.sctp_conn) g.sent;
    shorter = omega (arith, v.shorter, w.shorter);
    untouched = λ z.
        let (same, (first, _)) = v.untouched (omega arith) in
        let (still, others) = w.untouched (omega arith) in
        let heap : h.amf_heap ≡ g.amf_heap = ap (λ (x : Gnb). x.amf_heap) v.frame in
        (
          still ∙ same,
          (
            first,
            subst (λ x. Absent x g.amf_pool l) heap
                (subst (λ y. Absent h.amf_heap y l) same others),
          ),
        );
  }

  removals-IsClosing :
      (g : Gnb) (l : List Association)
      → lookup sender g.amf_heap ≡ some amf
      → (h : Gnb) × (n : ℕ) × (remove_all g l ≡ ok h) × IsClosing l g h n
  unfolding for_associations
  removals-IsClosing g [] s = (
    g,
    0,
    refl,
    record { frame = refl; closed = refl; shorter = omega arith; untouched = λ z. (refl, tt) },
  )
  removals-IsClosing g (a ∷ l) s =
      let (h, n, e, v) = removal-IsClosing g a s in
      let here : lookup sender h.amf_heap ≡ some amf =
        ap (λ (x : Gnb). lookup sender x.amf_heap) v.frame ∙ s in
      let (k, m, f, w) = removals-IsClosing h l here in
      (k, m + n, removals-next g h a l e ∙ f, IsClosing-add a l g h k n m v w)

  -- Whichever AMFs are to be removed, `HandlerAmfConfigurationUpdate` closes no association but that
  -- of the AMF that sent the update, if that AMF is there: it gets through the list, closes that
  -- association a number of times, at most as often as the pool has got shorter, and at least once
  -- unless no AMF of the pool has one of the addresses and the pool is as it was. Nothing else of the
  -- gNodeB changes, and the elements behind the list are handled next.
  pub removes-sender :
      (g : Gnb) (u : Update) (l : List Association) (ies : List Ie)
      → lookup sender g.amf_heap ≡ some amf
      → (h : Gnb) × (n : ℕ) × (scan_update env g sender u (to_remove_list l ∷ ies)
          ≡ scan_update env h sender u ies)
        × IsClosing l g h n
  unfolding scan_update
  removes-sender g u l ies s = let (h, n, e, v) = removals-IsClosing g l s in (h, n, rw e refl, v)
