-- ===== src/Gnb/Pools/Paging.antt =====
-- The list of paged UEs: `AddPagedUE` and `GetPagedUEs` of
-- PacketRusher/internal/control_test_engine/gnb/context/context.go. The goroutine that
-- `AddPagedUE` starts runs a second later as a step of its own, if the lock is free.
use g_cn_testbed_k8s.Base.{
  ℕ, suc, zero, ◌≡◌, refl, ap, Bool, true, false, ◌&&◌, List, [], ◌∷◌, ◌++◌, Option, none, some,
  take, drop, if◌then◌else◌, ◌==◌, Option-cases, inl, inr,
}
use mathlib.Core.List.{append-nil, append_assoc}
use g_cn_testbed_k8s.Gnb.State.{Gnb, PagedUe}

same_pointer : Option ℕ → Option ℕ → Bool
same_pointer none none = true
same_pointer (some a) (some b) = a == b
same_pointer _ _ = false

-- `slices.Index` of a paged UE, by its pointer and its time.
pub index : List PagedUe → PagedUe → Option ℕ
unfolding same_pointer
index [] p = none
index (x ∷ xs) p =
    let rest = index xs p in
    if same_pointer x.five_g_s_tmsi p.five_g_s_tmsi && x.timestamp == p.timestamp
    then some 0
    else elim rest [ none ↦ none | some i ↦ some (suc i) ]

-- `slices.Delete(s, i, j)` takes the elements from i up to j out.
pub slices_delete : List PagedUe → ℕ → ℕ → List PagedUe
slices_delete s i j = take i s ++ drop j s

-- `AddPagedUE` up to the goroutine.
unfoldable pub add_paged_ue : Gnb → PagedUe → Gnb
add_paged_ue g p = record g { paged_ues = g.paged_ues ++ p ∷ [] }

-- The goroutine of `AddPagedUE` for the entry `p`; where the entry is missing, it returns with the
-- lock held.
unfoldable pub expire_paged_ue : Gnb → PagedUe → Gnb
unfolding index slices_delete
expire_paged_ue g p = elim (index g.paged_ues p) [
  | none ↦ record g { paged_locked = true }
  | some i ↦ record g { paged_ues = slices_delete g.paged_ues i i }
]

-- `GetPagedUEs`
unfoldable pub get_paged_ues : Gnb → List PagedUe
get_paged_ues g = g.paged_ues

-- What happens to the list, one step at a time; each step takes the lock.
pub data PagingStep : Gnb → Gnb → Type 0 where
  page : (g : Gnb) (p : PagedUe) → g.paged_locked ≡ false → PagingStep g (add_paged_ue g p)
  expire : (g : Gnb) (p : PagedUe) → g.paged_locked ≡ false → PagingStep g (expire_paged_ue g p)

pub data PagingSteps (g : Gnb) : Gnb → Type 0 where
  here : PagingSteps g g
  next : {h k : Gnb} → PagingSteps g h → PagingStep h k → PagingSteps g k

delete-nothing : (s : List PagedUe) (i : ℕ) → slices_delete s i i ≡ s
unfolding slices_delete
delete-nothing s zero = refl
delete-nothing [] (suc i) = refl
delete-nothing (x ∷ s) (suc i) = ap (◌∷◌ x) (delete-nothing s i)

expire-keeps : (g : Gnb) (p : PagedUe) → (expire_paged_ue g p).paged_ues ≡ g.paged_ues
unfolding expire_paged_ue
expire-keeps g p = elim (Option-cases (index g.paged_ues p)) [
  | inl e ↦ rw (e, expire_paged_ue)
  | inr (i, e) ↦ rw (e, expire_paged_ue) (delete-nothing g.paged_ues i)
]

step-grows :
    (l : List PagedUe) {h k : Gnb}
    → (more : List PagedUe) × (h.paged_ues ≡ l ++ more)
    → PagingStep h k
    → (more : List PagedUe) × (k.paged_ues ≡ l ++ more)
unfolding add_paged_ue
step-grows l (more, e) (page h p free) = (more ++ p ∷ [], rw e (append_assoc l more (p ∷ [])))
step-grows l (more, e) (expire h p free) = (more, rw (expire-keeps h p) e)

-- Whatever UEs are paged and whatever timers run out, no paged UE ever leaves the list: the list
-- only grows, at its end.
pub paged_forever :
    {g h : Gnb}
    → PagingSteps g h
    → (more : List PagedUe) × (get_paged_ues h ≡ get_paged_ues g ++ more)
unfolding get_paged_ues
paged_forever {g} here = ([], rw (append-nil g.paged_ues))
paged_forever {g} (next r s) = step-grows g.paged_ues (paged_forever r) s
