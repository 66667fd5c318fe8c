-- ===== src/Gnb/Ue.antt =====
-- The UE context of a gNodeB: PacketRusher/internal/control_test_engine/gnb/context/ue.go.
pub mod Table
use g_cn_testbed_k8s.Base.{
  ℕ, suc, ◌-◌, ◌<◌, Bool, true, false, ◌&&◌, List, [], ◌∷◌, Option, none, some, Text, codes, ltb,
  ◌==◌, if◌then◌else◌, Result, ok, panic, ◌>>=◌, or_panic, length, get_elem?, set, text_eq,
}
use g_cn_testbed_k8s.Plmn.{convert_mcc_mnc}
use g_cn_testbed_k8s.Gnb.State.{GnbUe, GnbPduSession, Sessions, Context}

-- Why a call on the table of PDU sessions returns an error.
pub data SessionError : Type 0 where
  bad_id already_exists slice_not_selected : SessionError

-- A Go result of type (T, error).
pub data Answer {ℓ} (A : Type ℓ) : Type ℓ where
  answer : A → Answer A
  refused : SessionError → Answer A

-- The index `pduSessionId - 1` into the table of 16; outside it the program panics.
pub slot : ℕ → Sessions → Result (Option GnbPduSession)
slot id table = if id == 0 then panic else or_panic (get_elem? table (id - 1))

-- The guard `pduSessionId < 1 && pduSessionId > 16`, as it is written.
pub bad_session_id : ℕ → Bool
bad_session_id id = ltb id 1 && ltb 16 id

some_slice : List Text → List Text → Text → Text → Bool
some_slice (a ∷ ssts) (b ∷ sds) sst sd =
    let rest = some_slice ssts sds sst sd in if text_eq a sst && text_eq b sd then true else rest
some_slice _ _ sst sd = false

-- `isWantedNssai`
unfoldable pub is_wanted_nssai : GnbUe → Text → Text → Bool
unfolding some_slice
is_wanted_nssai ue sst sd =
    if length ue.context.allowed_sst == length ue.context.allowed_sd
    then some_slice ue.context.allowed_sst ue.context.allowed_sd sst sd
    else false

abbrev pub with_table : GnbUe → Sessions → GnbUe
with_table ue t = record ue { context = record ue.context { pdu_session = t } }

-- `CreatePduSession`, with the fields of the new session in `s`.
unfoldable pub create_pdu_session : GnbUe → GnbPduSession → Result (GnbUe × Answer GnbPduSession)
unfolding slot bad_session_id
create_pdu_session ue s =
    if bad_session_id s.pdu_session_id
    then ok (ue, refused bad_id)
    else slot s.pdu_session_id ue.context.pdu_session >>= λ old. elim old [
      | some _ ↦ ok (ue, refused already_exists)
      | none ↦
          if is_wanted_nssai ue s.sst s.sd
          then ok
              (with_table ue (set ue.context.pdu_session (s.pdu_session_id - 1) (some s)), answer s)
          else ok (ue, refused slice_not_selected)
    ]

-- `GetPduSession`; the answer is a pointer, which may be nil.
unfoldable pub get_pdu_session : GnbUe → ℕ → Result (Answer (Option GnbPduSession))
unfolding slot bad_session_id
get_pdu_session ue id =
    if bad_session_id id
    then ok (refused bad_id)
    else slot id ue.context.pdu_session >>= λ s. ok (answer s)

-- `DeletePduSession`; the error is not used by any caller.
unfoldable pub delete_pdu_session : GnbUe → ℕ → Result GnbUe
unfolding slot bad_session_id
delete_pdu_session ue id =
    if bad_session_id id
    then ok ue
    else slot id ue.context.pdu_session >>= λ _.
        ok (with_table ue (set ue.context.pdu_session (id - 1) none))

-- `GetSelectedNssai` takes the session's id itself for the index.
unfoldable pub get_selected_nssai : GnbUe → ℕ → Result (Text × Text)
get_selected_nssai ue id = or_panic (get_elem? ue.context.pdu_session id) >>= λ s. elim s [
  | some p ↦ ok (p.sst, p.sd)
  | none ↦ ok (codes "NSSAI was not selected", codes "NSSAI was not selected")
]

-- `CreateUeContext`
unfoldable pub create_ue_context :
    GnbUe → Text → Text → List Text → List Text → Option ℕ → Result GnbUe
create_ue_context ue plmn imeisv sst sd capabilities =
    let fill = λ (ids : Text × Text). record ue {
      context = record ue.context {
        mcc = ids.0;
        mnc = ids.1;
        masked_imeisv = imeisv;
        allowed_sst = sst;
        allowed_sd = sd;
        ue_security_capabilities = capabilities;
      };
    } in
    if text_eq plmn (codes "not informed")
    then ok (fill (plmn, plmn))
    else convert_mcc_mnc plmn >>= λ ids. ok (fill ids)

-- `CopyFromPreviousContext`. In the program the two contexts share their sessions; here the UE gets
-- what they are now, so what its gNodeB later sets in them does not show in the old UE, which is in the
-- state of the old gNodeB.
unfoldable pub copy_from_previous_context : GnbUe → GnbUe → GnbUe
copy_from_previous_context ue old = record ue {
  amf_ue_ngap_id = old.amf_ue_ngap_id;
  context = old.context;
}
