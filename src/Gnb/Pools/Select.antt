-- ===== src/Gnb/Pools/Select.antt =====
-- Which AMF a gNodeB selects for a new UE.
use g_cn_testbed_k8s.Base.{
  ℕ, ◌+◌, ◌<◌, ◌≤◌, ◌≡◌, refl, true, ◌&&◌, List, [], ◌∷◌, Option, none, some, arith, Map, lookup,
  leb, Bool-cases, Option-cases, inl, inr, ◌⊎◌,
}
use g_cn_testbed_k8s.Gnb.State.{Gnb, GnbAmf}
use g_cn_testbed_k8s.Gnb.Pools.{is_active, select_loop, select_amf_by_active}

-- `id` stands in the list.
abbrev pub Among : ℕ → List ℕ → Type 0
Among id [] = ⊥
Among id (x ∷ xs) = (id ≡ x) ⊎ Among id xs

abbrev weight : GnbAmf → ℕ
weight amf = amf.tnla.tnla_weight_factor

abbrev pub ActiveIn : Map GnbAmf → List ℕ → GnbAmf → Type 0
ActiveIn heap ids amf =
    (id : ℕ) × Among id ids × (lookup id heap ≡ some amf) × (is_active amf.state ≡ true)

ActiveIn-cons :
    (heap : Map GnbAmf) (id : ℕ) (ids : List ℕ) (amf : GnbAmf)
    → ActiveIn heap (id ∷ ids) amf
    → ((lookup id heap ≡ some amf) × (is_active amf.state ≡ true)) ⊎ ActiveIn heap ids amf
ActiveIn-cons heap id ids amf (j, inl p, l, c) = inl (rw (← p) l, c)
ActiveIn-cons heap id ids amf (j, inr m, l, c) = inr (j, m, l, c)

ActiveIn-tail :
    (heap : Map GnbAmf) (id : ℕ) (ids : List ℕ) (amf : GnbAmf)
    → ActiveIn heap ids amf
    → ActiveIn heap (id ∷ ids) amf
ActiveIn-tail heap id ids amf (j, m, l, c) = (j, inr m, l, c)

-- What the loop over `ids` that had `before` selected may end with.
abbrev Best : Map GnbAmf → List ℕ → Option GnbAmf → Option GnbAmf → Type 0
Best heap ids before none = (before ≡ none) × ((amf : GnbAmf) → ActiveIn heap ids amf → ⊥)
Best heap ids before (some best) =
    ((before ≡ some best) ⊎ ActiveIn heap ids best)
    × ((b : GnbAmf) → before ≡ some b → weight b ≤ weight best)
    × ((amf : GnbAmf) → ActiveIn heap ids amf → weight amf ≤ weight best)

Best-skip :
    (heap : Map GnbAmf) (ids : List ℕ) (before r : Option GnbAmf) (id : ℕ)
    → ((amf : GnbAmf)
        → lookup id heap ≡ some amf
        → is_active amf.state ≡ true
        → (b : GnbAmf) × (before ≡ some b) × (weight amf ≤ weight b))
    → Best heap ids before r
    → Best heap (id ∷ ids) before r
Best-skip heap ids before none id low (e, no_active) = (
  e,
  λ amf a. elim (ActiveIn-cons heap id ids amf a) [
    | inl (l, c) ↦ let (b, q, w) = low amf l c in cc (q, e)
    | inr t ↦ no_active amf t
  ],
)
Best-skip heap ids before (some best) id low (from, up, top) = (
  elim from [ inl e ↦ inl e | inr t ↦ inr (ActiveIn-tail heap id ids best t) ],
  up,
  λ amf a. elim (ActiveIn-cons heap id ids amf a) [
    | inl (l, c) ↦ let (b, q, w) = low amf l c in omega (arith, up b q)
    | inr t ↦ top amf t
  ],
)

Best-take :
    (heap : Map GnbAmf) (ids : List ℕ) (before r : Option GnbAmf) (id : ℕ) (amf : GnbAmf)
    → lookup id heap ≡ some amf
    → is_active amf.state ≡ true
    → ((b : GnbAmf) → before ≡ some b → weight b ≤ weight amf)
    → Best heap ids (some amf) r
    → Best heap (id ∷ ids) before r
Best-take heap ids before none id amf l c high (e, no_active) = cc e
Best-take heap ids before (some best) id amf l c high (from, up, top) = (
  elim from [
    | inl e ↦ inr (id, inl refl, ground arith, ground arith)
    | inr t ↦ inr (ActiveIn-tail heap id ids best t)
  ],
  λ b q. omega (arith, high b q, up amf refl),
  λ a h. elim (ActiveIn-cons heap id ids a h) [
    | inl (k, d) ↦ ground (arith, up amf refl)
    | inr t ↦ top a t
  ],
)

-- `bound` is one more than the weight of what was selected.
abbrev IsBound : ℕ → Option GnbAmf → Type 0
IsBound bound none = bound ≡ 0
IsBound bound (some b) = bound ≡ weight b + 1

below_bound :
    (bound : ℕ) (before : Option GnbAmf) (w : ℕ)
    → IsBound bound before
    → w < bound
    → (b : GnbAmf) × (before ≡ some b) × (w ≤ weight b)
below_bound bound none w h l = absurd (omega arith)
below_bound bound (some b) w h l = (b, refl, omega arith)

select_loop-Best :
    (heap : Map GnbAmf) (ids : List ℕ) (bound : ℕ) (before : Option GnbAmf)
    → IsBound bound before
    → Best heap ids before (select_loop heap ids bound before)
unfolding select_loop
select_loop-Best heap [] bound none h = (refl, λ amf a. a.1)
select_loop-Best heap [] bound (some b) h = (inl refl, λ c e. ground arith, λ amf a. absurd a.1)
select_loop-Best heap (id ∷ ids) bound before h = elim (Option-cases (lookup id heap)) [
  | inl e ↦
      rw (e, select_loop)
        (Best-skip heap ids before _ id (λ amf l c. cc) (select_loop-Best heap ids bound before h))
  | inr (amf, e) ↦ elim (Bool-cases (is_active amf.state && leb bound (weight amf))) [
    | inl t ↦
        rw (e, select_loop, t)
          (Best-take heap ids before _ id amf e (ground arith) (λ b q. ground arith)
            (select_loop-Best heap ids (weight amf + 1) (some amf) refl))
    | inr f ↦
        rw (e, select_loop, f)
          (Best-skip heap ids before _ id
            (λ a l c. below_bound bound before (weight a) h (ground arith))
            (select_loop-Best heap ids bound before h))
  ]
]

abbrev pub IsSelection : Gnb → Option GnbAmf → Type 0
IsSelection g none = (amf : GnbAmf) → ActiveIn g.amf_heap g.amf_pool amf → ⊥
IsSelection g (some best) =
    ActiveIn g.amf_heap g.amf_pool best
    × ((amf : GnbAmf)
        → ActiveIn g.amf_heap g.amf_pool amf
        → amf.tnla.tnla_weight_factor ≤ best.tnla.tnla_weight_factor)

Best-IsSelection :
    (g : Gnb) (r : Option GnbAmf) → Best g.amf_heap g.amf_pool none r → IsSelection g r
Best-IsSelection g none (e, h) = h
Best-IsSelection g (some best) (from, up, top) =
    (elim from [ inl e ↦ absurd (cc e) | inr t ↦ t ], top)

-- `selectAmFByActive` selects nothing only if no AMF in the pool is active. What it selects is an
-- active AMF in the pool, and no active AMF there has a larger weight factor.
pub select-IsSelection : (g : Gnb) → IsSelection g (select_amf_by_active g)
unfolding select_amf_by_active
select-IsSelection g = Best-IsSelection g _ (select_loop-Best g.amf_heap g.amf_pool 0 none refl)
