-- ===== src/Gnb/Pools.antt =====
-- The pools of a gNodeB and the UEs and AMFs in them:
-- PacketRusher/internal/control_test_engine/gnb/context/context.go.
pub mod Ids
pub mod Select
pub mod Release
pub mod Paging
use g_cn_testbed_k8s.Base.{
  ℕ, suc, ◌+◌, ◌%◌, ◌^◌, Bool, true, false, ◌&&◌, List, [], ◌∷◌, ◌++◌, Option, none, some, Text,
  ltb, ◌==◌, if◌then◌else◌, Result, ok, panic, ◌>>=◌, Map, lookup, insert, delete, length, not, leb,
}
use g_cn_testbed_k8s.Gnb.State.{
  Gnb, GnbUe, GnbAmf, GnbPduSession, Sessions, Context, UeState, AmfState, inactive, active,
  overload, initialized, Sent, closed, PagedUe, no_sessions,
}

-- An int64 counter, as its bit pattern.
abbrev pub i64 : ℕ → ℕ
i64 n = n % 2 ^ 64

abbrev pub u32 : ℕ → ℕ
u32 n = n % 2 ^ 32

-- `getRanUeId`
unfoldable pub get_ran_ue_id : Gnb → ℕ × Gnb
get_ran_ue_id gnb =
    (gnb.id_ue_generator, record gnb { id_ue_generator = i64 (gnb.id_ue_generator + 1) })

-- `getRanAmfId`
unfoldable pub get_ran_amf_id : Gnb → ℕ × Gnb
get_ran_amf_id gnb =
    (gnb.id_amf_generator, record gnb { id_amf_generator = i64 (gnb.id_amf_generator + 1) })

-- `GetUeTeid`
unfoldable pub get_ue_teid : Gnb → ℕ → ℕ × Gnb
get_ue_teid gnb ue = (
  gnb.teid_generator,
  record gnb {
    teid_pool = insert gnb.teid_generator ue gnb.teid_pool;
    teid_generator = u32 (gnb.teid_generator + 1);
  },
)

abbrev pub is_active : AmfState → Bool
is_active active = true
is_active _ = false

-- The loop of `selectAmFByActive` over the pool, in the order in which `Range` visits it. `bound`
-- is `maxWeightFactor + 1`, which begins at -1 + 1.
unfoldable pub select_loop : Map GnbAmf → List ℕ → ℕ → Option GnbAmf → Option GnbAmf
select_loop heap [] bound selected = selected
select_loop heap (id ∷ ids) bound selected = elim (lookup id heap) [
  | none ↦ select_loop heap ids bound selected
  | some amf ↦
      let better = is_active amf.state && leb bound amf.tnla.tnla_weight_factor in
      select_loop heap ids (if better then amf.tnla.tnla_weight_factor + 1 else bound)
        (if better then some amf else selected)
]

-- `selectAmFByActive`
unfoldable pub select_amf_by_active : Gnb → Option GnbAmf
unfolding select_loop
select_amf_by_active gnb = select_loop gnb.amf_heap gnb.amf_pool 0 none

-- `&GNBUe{}` with what `NewGnBUe` sets.
abbrev pub new_ue : ℕ → Option ℕ → Option ℕ → ℕ → Option ℕ → GnbUe
new_ue ran_id gnb_tx gnb_rx pr_ue_id tmsi = record {
  ran_ue_ngap_id = ran_id;
  amf_ue_ngap_id = 0;
  amf_id = 0;
  state = initialized;
  sctp_connection = none;
  gnb_rx = gnb_rx;
  gnb_tx = gnb_tx;
  pr_ue_id = pr_ue_id;
  tmsi = tmsi;
  context = record {
    mcc = [];
    mnc = [];
    masked_imeisv = [];
    pdu_session = no_sessions;
    allowed_sst = [];
    allowed_sd = [];
    ue_security_capabilities = none;
  };
  new_gnb = none;
}

-- The part of `NewGnBUe` before the AMF is selected: a UE is made, and stored in the pools.
unfoldable pub store_ue : Gnb → Option ℕ → Option ℕ → ℕ → Option ℕ → Gnb
unfolding get_ran_ue_id
store_ue gnb gnb_tx gnb_rx pr_ue_id tmsi =
    let (ran_id, g) = get_ran_ue_id gnb in
    record g {
      ue_heap = insert g.next_ptr (new_ue ran_id gnb_tx gnb_rx pr_ue_id tmsi) g.ue_heap;
      next_ptr = g.next_ptr + 1;
      ue_pool = insert ran_id g.next_ptr g.ue_pool;
      pr_ue_pool = if pr_ue_id == 0 then g.pr_ue_pool else insert pr_ue_id g.next_ptr g.pr_ue_pool;
    }

-- `NewGnBUe`: the pointer to the UE, or the error that no AMF is available.
unfoldable pub new_gnb_ue : Gnb → Option ℕ → Option ℕ → ℕ → Option ℕ → Gnb × Option ℕ
unfolding store_ue
new_gnb_ue gnb gnb_tx gnb_rx pr_ue_id tmsi =
    let g = store_ue gnb gnb_tx gnb_rx pr_ue_id tmsi in
    elim (select_amf_by_active g) [
      | none ↦ (g, none)
      | some amf ↦ (
        record g {
          ue_heap =
              insert gnb.next_ptr
                (record (new_ue gnb.id_ue_generator gnb_tx gnb_rx pr_ue_id tmsi) {
                  amf_id = amf.amf_id;
                  sctp_connection = amf.tnla.sctp_conn;
                })
                g.ue_heap;
        },
        some gnb.next_ptr,
      )
    ]

-- `GetGnbUe`, `GetGnbUeByPrUeId` and `GetGnbUeByTeid`: a pointer, or an error.
unfoldable pub get_gnb_ue : Gnb → ℕ → Option ℕ
get_gnb_ue gnb ran_ue_id = lookup ran_ue_id gnb.ue_pool

unfoldable pub get_gnb_ue_by_pr_ue_id : Gnb → ℕ → Option ℕ
get_gnb_ue_by_pr_ue_id gnb pr_ue_id = lookup pr_ue_id gnb.pr_ue_pool

unfoldable pub get_gnb_ue_by_teid : Gnb → ℕ → Option ℕ
get_gnb_ue_by_teid gnb teid = lookup teid gnb.teid_pool

-- `sync.Map.CompareAndDelete`
unfoldable pub compare_and_delete : ℕ → ℕ → Map ℕ → Map ℕ
compare_and_delete k p m = elim (lookup k m) [
  | none ↦ m
  | some q ↦ if q == p then delete k m else m
]

unfoldable pub delete_teids : Sessions → Map ℕ → Map ℕ
delete_teids [] m = m
delete_teids (none ∷ l) m = delete_teids l m
delete_teids (some s ∷ l) m = delete_teids l (delete s.downlink_teid m)

close_tx : Gnb → ℕ → GnbUe → Gnb
close_tx gnb p ue = elim ue.gnb_tx [
  | none ↦ gnb
  | some c ↦ record gnb {
    ue_heap = insert p (record ue { gnb_tx = none }) gnb.ue_heap;
    sent = closed c ∷ gnb.sent;
  }
]

-- `DeleteGnBUe` of the UE at the pointer `p`; a nil pointer panics.
unfoldable pub delete_gnb_ue : Gnb → ℕ → Result Gnb
unfolding close_tx
delete_gnb_ue gnb p = elim (lookup p gnb.ue_heap) [
  | none ↦ panic
  | some ue ↦ ok (
      close_tx
        (record gnb {
          ue_pool = delete ue.ran_ue_ngap_id gnb.ue_pool;
          pr_ue_pool = compare_and_delete ue.pr_ue_id p gnb.pr_ue_pool;
          teid_pool = delete_teids ue.context.pdu_session gnb.teid_pool;
        })
        p ue)
]

-- `NewGnBAmf`: the new AMF is inactive and has no association yet.
unfoldable pub new_gnb_amf : Gnb → Text → ℕ → ℕ × Gnb
unfolding get_ran_amf_id
new_gnb_amf gnb ip port =
    let (amf_id, g) = get_ran_amf_id gnb in
    (
      amf_id,
      record g {
        amf_heap =
            insert amf_id
              (record {
                amf_ip = ip;
                amf_port = port;
                amf_id = amf_id;
                tnla = record { sctp_conn = none; tnla_weight_factor = 0; usage = 0; streams = 0 };
                relative_amf_capacity = 0;
                state = inactive;
                name = [];
                region_id = 0;
                set_id = 0;
                pointer = 0;
                plmns = [];
                slices = [];
                len_slice = 0;
                len_plmn = 0;
              })
              g.amf_heap;
        amf_pool = g.amf_pool ++ amf_id ∷ [];
      },
    )
