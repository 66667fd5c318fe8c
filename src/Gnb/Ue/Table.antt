-- ===== src/Gnb/Ue/Table.antt =====
-- The table of PDU sessions of a UE at the gNodeB.
use g_cn_testbed_k8s.Base.{
  ℕ, ◌-◌, ◌+◌, ◌<◌, ◌≡◌, none, some, ok, panic, arith, length, get_elem?, length-set,
  get_elem?-none, lt_of_get_elem?, get_elem?-set, ◌==◌, if◌then◌else◌, ◌⊎◌, inl, inr, Option-cases,
}
use g_cn_testbed_k8s.Gnb.State.{GnbUe, GnbPduSession}
use g_cn_testbed_k8s.Gnb.Ue.{
  answer, create_pdu_session, get_pdu_session, delete_pdu_session, get_selected_nssai,
}

-- The table has 16 places, and a session stands at the place of its id.
pub record IsTable (ue : GnbUe) : Type 0 where
  pub size : length ue.context.pdu_session ≡ 16
  pub placed :
      (i : ℕ) (s : GnbPduSession)
      → get_elem? ue.context.pdu_session i ≡ some (some s)
      → s.pdu_session_id ≡ i + 1

-- Creating a session never meets its range check: for an id outside 1 to 16 the program panics.
pub create_out_of_range :
    (ue : GnbUe) (s : GnbPduSession)
    → IsTable ue
    → (s.pdu_session_id ≡ 0) ⊎ (16 < s.pdu_session_id)
    → create_pdu_session ue s ≡ panic
unfolding create_pdu_session
create_out_of_range ue s v (inl e) = ground arith
create_out_of_range ue s v (inr l) =
    ground (arith, get_elem?-none ue.context.pdu_session (s.pdu_session_id - 1))

-- After a session is created, `GetPduSession` answers it for its id, and every other id is
-- answered as before.
pub get-create :
    (ue ue' : GnbUe) (s s' : GnbPduSession) (j : ℕ)
    → create_pdu_session ue s ≡ ok (ue', answer s')
    → get_pdu_session ue' j
      ≡ (if j == s.pdu_session_id then ok (answer (some s)) else get_pdu_session ue j)
unfolding create_pdu_session get_pdu_session
get-create ue ue' s s' j h = ground (
  arith,
  lt_of_get_elem? ue.context.pdu_session (s.pdu_session_id - 1) none,
  get_elem?-set ue.context.pdu_session (s.pdu_session_id - 1) (j - 1) (some s),
)

-- A created session keeps the table well formed.
pub create-IsTable :
    (ue ue' : GnbUe) (s s' : GnbPduSession)
    → create_pdu_session ue s ≡ ok (ue', answer s')
    → IsTable ue
    → IsTable ue'
unfolding create_pdu_session
create-IsTable ue ue' s s' h v = record {
  size = ground (arith, length-set ue.context.pdu_session (s.pdu_session_id - 1) (some s), v.size);
  placed = λ i t e. ground (
    arith,
    v.placed i t,
    lt_of_get_elem? ue.context.pdu_session (s.pdu_session_id - 1) none,
    get_elem?-set ue.context.pdu_session (s.pdu_session_id - 1) i (some s),
  );
}

-- `DeletePduSession` empties the place of its id, and leaves every other one as it was.
pub get-delete :
    (ue ue' : GnbUe) (id j : ℕ)
    → delete_pdu_session ue id ≡ ok ue'
    → get_pdu_session ue' j ≡ (if j == id then ok (answer none) else get_pdu_session ue j)
unfolding delete_pdu_session get_pdu_session
get-delete ue ue' id j h = elim (Option-cases (get_elem? ue.context.pdu_session (id - 1))) [
  | inl e ↦ ground arith
  | inr (a, e) ↦ ground (
    arith,
    lt_of_get_elem? ue.context.pdu_session (id - 1) a,
    get_elem?-set ue.context.pdu_session (id - 1) (j - 1) none,
  )
]

-- The slice that is reported for a session is the one at the next place: for the session 16 there
-- is none, and the program panics.
pub selected_nssai_last : (ue : GnbUe) → IsTable ue → get_selected_nssai ue 16 ≡ panic
unfolding get_selected_nssai
selected_nssai_last ue v = ground (arith, get_elem?-none ue.context.pdu_session 16, v.size)
