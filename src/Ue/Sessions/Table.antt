-- ===== src/Ue/Sessions/Table.antt =====
-- What `CreatePDUSession`, `GetPduSession` and `DeletePduSession` of the UE do to its table.
use g_cn_testbed_k8s.Base.{
  ℕ, zero, suc, ◌+◌, ◌-◌, ◌≤◌, ◌≡◌, ◌≢◌, refl, true, false, List, [], ◌∷◌, Option, none, some, ok,
  arith, get_elem?, set, lookup, insert, lookup-insert, get_elem?-set, Option-cases, Bool-cases,
  inl, inr, if◌then◌else◌, ◌==◌, lt_of_get_elem?, ltb, >>=-eq-ok, ◌∙◌, sym, ap, get_elem?-set_ne,
}
use g_cn_testbed_k8s.Ue.State.{Ue, UePduSession, stopped, deref_session}
use g_cn_testbed_k8s.Ue.Sessions.{
  first_free, new_session, create_pdu_session, slot, get_pdu_session, delete_pdu_session,
}

-- The index is free, and no smaller one is.
pub record IsFirstFree (t : List (Option ℕ)) (i : ℕ) : Type 0 where
  pub free : get_elem? t i ≡ some none
  pub least : (j : ℕ) → get_elem? t j ≡ some none → i ≤ j

suc-IsFirstFree :
    (p : ℕ) (t : List (Option ℕ)) (i : ℕ) → IsFirstFree t i → IsFirstFree (some p ∷ t) (suc i)
suc-IsFirstFree p t i v = record { free = v.free; least = least }
  where
    least : (j : ℕ) → get_elem? (some p ∷ t) j ≡ some none → suc i ≤ j
    least zero h = ground arith
    least (suc j) h = ground (arith, v.least j h)

pub first_free-IsFirstFree : (t : List (Option ℕ)) (i : ℕ) → first_free t ≡ some i → IsFirstFree t i
unfolding first_free
first_free-IsFirstFree [] i h = absurd (ground arith)
first_free-IsFirstFree (none ∷ t) zero h = record { free = refl; least = λ j e. ground arith }
first_free-IsFirstFree (none ∷ t) (suc i) h = absurd (ground arith)
first_free-IsFirstFree (some p ∷ t) zero h =
    absurd (elim (Option-cases (first_free t)) [ inl e ↦ ground arith | inr (k, e) ↦ ground arith ])
first_free-IsFirstFree (some p ∷ t) (suc i) h = suc-IsFirstFree p t i (
    first_free-IsFirstFree t i (elim (Option-cases (first_free t)) [
      | inl e ↦ absurd (ground arith)
      | inr (k, e) ↦ ground arith
    ]))

first_free-some :
    (t : List (Option ℕ)) (i : ℕ) → get_elem? t i ≡ some none → (k : ℕ) × (first_free t ≡ some k)
unfolding first_free
first_free-some [] i h = absurd (ground arith)
first_free-some (none ∷ t) i h = (0, refl)
first_free-some (some p ∷ t) zero h = absurd (ground arith)
first_free-some (some p ∷ t) (suc i) h = let (k, e) = first_free-some t i h in (suc k, ground arith)

abbrev pub table : Ue → List (Option ℕ)
table ue = ue.pdu_session

-- As long as the table has room, `CreatePDUSession` takes its first free place, puts there a session
-- that is inactive and has the number of the place, counted from 1, for its id, and leaves every
-- other place as it is.
pub create-IsFirstFree :
    (ue : Ue) (i : ℕ)
    → get_elem? ue.pdu_session i ≡ some none
    → (k : ℕ) × IsFirstFree ue.pdu_session k
      × ((create_pdu_session ue).1 ≡ some ue.next_ptr)
      × (lookup ue.next_ptr (create_pdu_session ue).0.session_heap ≡ some (new_session (k + 1)))
      × ((j : ℕ)
          → get_elem? (create_pdu_session ue).0.pdu_session j
            ≡ (if k == j then some (some ue.next_ptr) else get_elem? ue.pdu_session j))
unfolding create_pdu_session
create-IsFirstFree ue i h =
    let (k, e) = first_free-some ue.pdu_session i h in
    let v = first_free-IsFirstFree ue.pdu_session k e in
    rw (e, create_pdu_session)
      (
        k,
        v,
        refl,
        ground (arith, lookup-insert ue.next_ptr ue.next_ptr (new_session (k + 1)) ue.session_heap),
        λ j.
            get_elem?-set ue.pdu_session k j (some ue.next_ptr)
              (lt_of_get_elem? ue.pdu_session k none v.free),
      )

found :
    (ue : Ue) (id p : ℕ)
    → get_pdu_session ue id ≡ ok (some p)
    → (ltb 15 id ≡ false)
      × ((id == 0) ≡ false)
      × (get_elem? ue.pdu_session (id - 1) ≡ some (some p))
unfolding get_pdu_session slot
found ue id p h = elim (Bool-cases (ltb 15 id)) [
  | inl a ↦ absurd (ground arith)
  | inr a ↦ elim (Bool-cases (id == 0)) [
    | inl b ↦ absurd (ground arith)
    | inr b ↦ elim (Option-cases (get_elem? ue.pdu_session (id - 1))) [
      | inl e ↦ absurd (ground arith)
      | inr (q, e) ↦ (a, b, ground arith)
    ]
  ]
]

abbrev pub deleted : Ue → ℕ → ℕ → UePduSession → Ue
deleted ue id p s = record ue {
  session_heap = insert p (record s { wait_closed = true }) ue.session_heap;
  sent = elim s.stop_signal [ none ↦ ue.sent | some c ↦ stopped c ∷ ue.sent ];
  pdu_session = set ue.pdu_session (id - 1) none;
}

delete_found :
    (ue : Ue) (id p : ℕ) (s : UePduSession)
    → get_pdu_session ue id ≡ ok (some p)
    → lookup p ue.session_heap ≡ some s
    → s.wait_closed ≡ false
    → delete_pdu_session ue id ≡ ok (deleted ue id p s)
unfolding delete_pdu_session slot
delete_found ue id p s h l w =
    let (a, b, e) = found ue id p h in rw (a, b, e, delete_pdu_session, slot) rw (l, w) refl

-- No deletion reaches the last place of the table.
delete-last :
    (ue u : Ue) (id : ℕ)
    → delete_pdu_session ue id ≡ ok u
    → get_elem? u.pdu_session 15 ≡ get_elem? ue.pdu_session 15
unfolding delete_pdu_session
delete-last ue u id h = elim (Bool-cases (ltb 15 id)) [
  | inl a ↦ ground arith
  | inr a ↦
      let (o, e, k) = >>=-eq-ok (slot ue id) _ (rw a at h) in
      elim (Option-cases o) [
        | inl n ↦ ground arith
        | inr (p, n) ↦
            let (s, d, t) = >>=-eq-ok (deref_session ue p) _ (rw n at k) in
            elim (Bool-cases s.wait_closed) [
              | inl c ↦ absurd (ground arith)
              | inr c ↦
                  let other : (id - 1) ≢ 15 = λ x. ground arith in
                  let same : record ue {
                    session_heap = insert p (record s { wait_closed = true }) ue.session_heap;
                    sent = elim s.stop_signal [ none ↦ ue.sent | some b ↦ stopped b ∷ ue.sent ];
                    pdu_session = set ue.pdu_session (id - 1) none;
                  }
                      ≡ u =
                    ground arith in
                  ap (λ (x : Ue). get_elem? x.pdu_session 15) (sym same)
                  ∙ get_elem?-set_ne ue.pdu_session (id - 1) 15 none other
            ]
      ]
]

-- Where only the last place of the table is free, `CreatePDUSession` puts there a session with the id
-- 16. If its pointer is new, `GetPduSession` gives that pointer for no id, and `DeletePduSession`,
-- whatever the id, leaves the session in its place.
pub create_16 :
    (ue : Ue)
    → IsFirstFree ue.pdu_session 15
    → ((j p : ℕ) → get_elem? ue.pdu_session j ≡ some (some p) → p ≢ ue.next_ptr)
    → (lookup ue.next_ptr (create_pdu_session ue).0.session_heap ≡ some (new_session 16))
      × (get_elem? (create_pdu_session ue).0.pdu_session 15 ≡ some (some ue.next_ptr))
      × ((id : ℕ) → get_pdu_session (create_pdu_session ue).0 id ≢ ok (some ue.next_ptr))
      × ((id : ℕ) (w : Ue)
          → delete_pdu_session (create_pdu_session ue).0 id ≡ ok w
          → get_elem? w.pdu_session 15 ≡ some (some ue.next_ptr))
create_16 ue v fresh =
    let (k, w, made, new, rest) = create-IsFirstFree ue 15 v.free in
    let e : k ≡ 15 = ground (arith, v.least k w.free, w.least 15 v.free) in
    let here : get_elem? (create_pdu_session ue).0.pdu_session 15 ≡ some (some ue.next_ptr) =
      ground (arith, rest 15) in
    (
      ground arith,
      here,
      λ id h.
          let (a, b, c) = found (create_pdu_session ue).0 id ue.next_ptr h in
          fresh (id - 1) ue.next_ptr (ground (arith, rest (id - 1))) refl,
      λ id u h. delete-last (create_pdu_session ue).0 u id h ∙ here,
    )

-- A session that is found is gone after `DeletePduSession`, once the session's channel was still
-- open, and every other id that is not 0 finds what it found.
pub get-delete_pdu_session :
    (ue : Ue) (id p : ℕ) (s : UePduSession)
    → get_pdu_session ue id ≡ ok (some p)
    → lookup p ue.session_heap ≡ some s
    → s.wait_closed ≡ false
    → (u : Ue) × (delete_pdu_session ue id ≡ ok u)
      × (get_pdu_session u id ≡ ok none)
      × ((j : ℕ) → j ≢ id → j ≢ 0 → get_pdu_session u j ≡ get_pdu_session ue j)
unfolding get_pdu_session slot
get-delete_pdu_session ue id p s h l w =
    let (a, b, e) = found ue id p h in
    let lt = lt_of_get_elem? ue.pdu_session (id - 1) (some p) e in
    (
      deleted ue id p s,
      delete_found ue id p s h l w,
      ground (arith, get_elem?-set ue.pdu_session (id - 1) (id - 1) none lt),
      λ j n z. ground (arith, get_elem?-set ue.pdu_session (id - 1) (j - 1) none lt),
    )
