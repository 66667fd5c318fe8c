-- ===== src/Examples/Data.antt =====
-- The data of the examples: two AMFs, a gNodeB with a UE, and a UE with its libraries.
use g_cn_testbed_k8s.Base.{
  ℕ, ◌+◌, ◌*◌, ◌/◌, ◌%◌, ◌^◌, true, false, [], ◌∷◌, none, some, codes, Result, ok, fatal, panic,
  blocked, replicate,
}
use g_cn_testbed_k8s.Gnb.State.{Gnb, GnbUe, GnbAmf, GnbPduSession, active, no_sessions}
use g_cn_testbed_k8s.Gnb.Pools.{new_ue}
use g_cn_testbed_k8s.Gnb.Ngap.{Env}
use g_cn_testbed_k8s.Ue.State.{Ue, mm5g_null, tunnel_disabled, UePduSession, pdu_session_active}
use g_cn_testbed_k8s.Ue.Auth.{Crypto}
use g_cn_testbed_k8s.Ue.Encode.{NasEnv, Counter}
use g_cn_testbed_k8s.Ue.Message.{service_accept}
use g_cn_testbed_k8s.Ue.Dispatch.{Decoder}

abbrev pub value_or {ℓ} : {A : Type ℓ} → A → Result A → A
value_or d (ok a) = a
value_or d fatal = d
value_or d panic = d
value_or d blocked = d

abbrev pub amf_with : ℕ → ℕ → GnbAmf
amf_with id weight = record {
  amf_ip = id ∷ [];
  amf_port = 38412;
  amf_id = id;
  tnla = record { sctp_conn = some (id + 70); tnla_weight_factor = weight; usage = 0; streams = 0 };
  relative_amf_capacity = 0;
  state = active;
  name = codes "amf";
  region_id = 0;
  set_id = 0;
  pointer = 0;
  plmns = [];
  slices = [];
  len_slice = 0;
  len_plmn = 0;
}

abbrev pub gnb_ue : GnbUe
gnb_ue = record (new_ue 1 (some 20) (some 21) 4 none) {
  context = record {
    mcc = [];
    mnc = [];
    masked_imeisv = [];
    pdu_session = no_sessions;
    allowed_sst = codes "01" ∷ [];
    allowed_sd = codes "112233" ∷ [];
    ue_security_capabilities = none;
  };
  sctp_connection = some 71;
  amf_id = 1;
}

abbrev pub gnb_1 : Gnb
gnb_1 = record {
  inbound_channel = 9;
  mcc = codes "208";
  mnc = codes "93";
  gnb_id = codes "000001";
  n3_ip = codes "10.0.0.1";
  ue_heap = (0, gnb_ue) ∷ [];
  next_ptr = 1;
  ue_pool = (1, 0) ∷ [];
  pr_ue_pool = (4, 0) ∷ [];
  teid_pool = [];
  amf_heap = (1, amf_with 1 10) ∷ (2, amf_with 2 20) ∷ [];
  amf_pool = 1 ∷ 2 ∷ [];
  id_ue_generator = 2;
  id_amf_generator = 3;
  teid_generator = 5;
  paged_ues = [];
  paged_locked = false;
  n2 = none;
  sent = [];
}

abbrev pub session_with : ℕ → GnbPduSession
session_with id = record {
  pdu_session_id = id;
  upf_ip = codes "10.0.0.2";
  sst = codes "01";
  sd = codes "112233";
  uplink_teid = 1;
  downlink_teid = 5;
  pdu_type = 0;
  qos_id = 1;
  five_qi = 0;
  pri_arp = 0;
}

-- Everything is encoded and written, and nothing is decoded.
abbrev pub gnb_env : Env
gnb_env = record {
  encodes = λ m. true;
  write = λ c m. ok true;
  decode_transfer = λ b. none;
  decode_switch = λ b. none;
  decode_container = λ b. none;
  ip_address_to_string = λ b. b;
  dial = λ t p. some 99;
}

-- The count as it is laid out: 16 bits of overflow above 8 bits of sequence number.
abbrev pub counter : Counter
counter = record {
  sqn = λ c. c % 2 ^ 8;
  overflow = λ c. c / 2 ^ 8;
  set_sqn = λ c s. c / 2 ^ 8 * 2 ^ 8 + s % 2 ^ 8;
  set_overflow = λ c o. o % 2 ^ 16 * 2 ^ 8 + c % 2 ^ 8;
  count_of = λ o s. o % 2 ^ 16 * 2 ^ 8 + s % 2 ^ 8;
  add_one = λ c. (c + 1) % 2 ^ 24;
}

-- A Milenage whose keys are all alike.
abbrev pub crypto : Crypto
crypto = record {
  f1 = λ opc k rand sqn amf. (replicate 8 7, replicate 8 8);
  f2345 = λ opc k rand. record {
    res = replicate 8 1;
    ck = replicate 16 2;
    ik = replicate 16 3;
    ak = replicate 6 0;
    ak_star = replicate 6 0;
  };
  kdf = λ key purpose params. some (replicate 32 6);
}

abbrev pub nas_env : NasEnv
nas_env = record {
  counter = counter;
  plain = λ context m. 126 ∷ [];
  decodes = λ b. true;
  plain_nas_encode = λ b. some b;
  encrypt_uplink = λ a k c b. some b;
  encrypt_downlink = λ a k c b. some b;
  mac_uplink = λ a k c b. some (1 ∷ 2 ∷ 3 ∷ 4 ∷ []);
  mac_downlink = λ a k c b. some (1 ∷ 2 ∷ 3 ∷ 4 ∷ []);
  crypto = crypto;
}

-- Every message is a protected Service Accept.
abbrev pub decoder : Decoder
decoder = record {
  security_header_type = λ b. 1;
  plain_nas_decode = λ b. service_accept;
  decode_gsm = λ b. none;
}

abbrev pub ue_session : UePduSession
ue_session = record {
  id = 1;
  gnb_pdu_session = none;
  ue_ip = [];
  stop_signal = none;
  wait_closed = false;
  t3580_retries = 0;
  state_sm = pdu_session_active;
}

abbrev pub ue_1 : Ue
ue_1 = record {
  pr_ue_id = 4;
  security = record {
    supi = codes "imsi-2089300007487";
    ul_count = 0;
    dl_count = 0;
    integrity_alg = 2;
    ciphering_alg = 0;
    ksi = 7;
    tsc_mapped = false;
    snn = [];
    knas_enc = [];
    knas_int = [];
    kamf = [];
    subscription = record {
      opc = codes "00";
      permanent_key = codes "00";
      sequence_number = codes "000000000000";
      amf = codes "8000";
    };
    guti = none;
  };
  state_mm = mm5g_null;
  gnb_inbound_channel = 9;
  gnb_rx = some 20;
  gnb_tx = some 21;
  drx = none;
  pdu_session = some 0 ∷ replicate 15 none;
  session_heap = (0, ue_session) ∷ [];
  next_ptr = 1;
  t3580 = [];
  amf_mcc = [];
  amf_mnc = [];
  sst = 1;
  sd = [];
  tunnel_mode = tunnel_disabled;
  sent = [];
}
