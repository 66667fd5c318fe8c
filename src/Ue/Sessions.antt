-- ===== src/Ue/Sessions.antt =====
-- The PDU sessions of a UE: `CreatePDUSession`, `GetPduSession`, `GetPduSessions` and
-- `DeletePduSession` of PacketRusher/internal/control_test_engine/ue/context/context.go.
pub mod Table
use g_cn_testbed_k8s.Base.{
  ℕ, suc, ◌+◌, ◌-◌, Bool, false, List, [], ◌∷◌, Option, none, some, Result, ok, panic, ◌>>=◌,
  or_panic, get_elem?, set, ltb, ◌==◌, if◌then◌else◌, insert, lookup, Map,
}
use g_cn_testbed_k8s.Gnb.State.{GnbPduSession}
use g_cn_testbed_k8s.Ue.State.{
  Ue, UePduSession, pdu_session_inactive, stopped, deref_session, put_session,
}

-- The index of the first nil in the table.
unfoldable pub first_free : List (Option ℕ) → Option ℕ
first_free [] = none
first_free (none ∷ t) = some 0
first_free (some p ∷ t) =
    let rest = first_free t in elim rest [ none ↦ none | some i ↦ some (suc i) ]

abbrev pub new_session : ℕ → UePduSession
new_session id = record {
  id = id;
  gnb_pdu_session = none;
  ue_ip = [];
  stop_signal = none;
  wait_closed = false;
  t3580_retries = 0;
  state_sm = pdu_session_inactive;
}

-- `CreatePDUSession`: the pointer to the new session, or an error.
unfoldable pub create_pdu_session : Ue → Ue × Option ℕ
unfolding first_free
create_pdu_session ue = elim (first_free ue.pdu_session) [
  | none ↦ (ue, none)
  | some i ↦ (
    record ue {
      pdu_session = set ue.pdu_session i (some ue.next_ptr);
      session_heap = insert ue.next_ptr (new_session (i + 1)) ue.session_heap;
      next_ptr = ue.next_ptr + 1;
    },
    some ue.next_ptr,
  )
]

-- `ue.PduSession[id-1]` for an id that is a uint8: the index of the id 0 is 255.
unfoldable pub slot : Ue → ℕ → Result (Option ℕ)
slot ue id = if id == 0 then panic else or_panic (get_elem? ue.pdu_session (id - 1))

-- `GetPduSession`: a pointer, or an error.
unfoldable pub get_pdu_session : Ue → ℕ → Result (Option ℕ)
unfolding slot
get_pdu_session ue id = if ltb 15 id then ok none else slot ue id

-- `DeletePduSession`; no caller uses its error.
unfoldable pub delete_pdu_session : Ue → ℕ → Result Ue
unfolding slot
delete_pdu_session ue id =
    if ltb 15 id
    then ok ue
    else slot ue id >>= λ found. elim found [
      | none ↦ ok ue
      | some p ↦ deref_session ue p >>= λ s.
          if s.wait_closed
          then panic
          else ok (record ue {
            session_heap = insert p (record s { wait_closed = Bool.true }) ue.session_heap;
            sent = elim s.stop_signal [ none ↦ ue.sent | some c ↦ stopped c ∷ ue.sent ];
            pdu_session = set ue.pdu_session (id - 1) none;
          })
    ]

-- `GetPduSessions`: the gNodeB's sessions in a table of their own.
unfoldable pub gnb_sessions :
    Map UePduSession → List (Option ℕ) → Result (List (Option GnbPduSession))
gnb_sessions heap [] = ok []
gnb_sessions heap (none ∷ t) = gnb_sessions heap t >>= λ l. ok (none ∷ l)
gnb_sessions heap (some p ∷ t) =
    or_panic (lookup p heap) >>= λ s. gnb_sessions heap t >>= λ l. ok (s.gnb_pdu_session ∷ l)

unfoldable pub get_pdu_sessions : Ue → Result (List (Option GnbPduSession))
unfolding gnb_sessions
get_pdu_sessions ue = gnb_sessions ue.session_heap ue.pdu_session
