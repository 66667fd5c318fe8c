-- ===== src/Examples/Ues.antt =====
-- Examples for the UE.
use g_cn_testbed_k8s.Base.{
  take, drop, ℕ, zero, suc, ◌≢◌, ◌+◌, ◌/◌, ◌%◌, ◌^◌, ◌≡◌, ◌⊎◌, refl, true, false, List, [], ◌∷◌,
  ◌++◌, none, some, codes, ok, arith, lookup, get_elem?, if◌then◌else◌, ◌==◌, ltb, replicate,
  text_eq, hex_decode, from_hex_char,
}
use g_cn_testbed_k8s.Gnb.State.{empty_message, UeMessage}
use g_cn_testbed_k8s.Ue.State.{Ue, mm5g_registered}
use g_cn_testbed_k8s.Ue.Sessions.{
  first_free, create_pdu_session, get_pdu_session, delete_pdu_session, new_session,
}
use g_cn_testbed_k8s.Ue.Sessions.Table.{
  IsFirstFree, first_free-IsFirstFree, create-IsFirstFree, create_16,
}
use g_cn_testbed_k8s.Ue.Auth.{
  Capability, select_algorithms, derive_res_star_and_set_key, successful, hex_or_fatal, derive_autn,
  xor_into, bytes_greater, derivate_alg_key, set_key, derivate_kamf, supi_digits, leading_digits,
  set_kamf,
}
use g_cn_testbed_k8s.Ue.Auth.Algorithms.{IsLowest, select-IsLowest, integrity_bits, ciphering_bits}
use g_cn_testbed_k8s.Ue.Auth.Replay.{derive-IsJudged, IsJudged, replay_accepted}
use g_cn_testbed_k8s.Ue.Encode.{nas_encode, IsCounter}
use g_cn_testbed_k8s.Ue.Encode.Counts.{IsCounted, counting, nas_encode-IsCounted}
use g_cn_testbed_k8s.Ue.Message.{service_accept, security_mode_command, SecurityModeCommand}
use g_cn_testbed_k8s.Ue.Dispatch.{
  Protected, split, verify, receive, dispatch_nas, next_dl_count, with_dl_count, take_new_context,
  deciphered, check_context, check_integrity, handle, Decoder,
}
use g_cn_testbed_k8s.Ue.Dispatch.Dropped.{with_keys_of, dropped-keys, forged_command}
use g_cn_testbed_k8s.Ue.Dispatch.Integrity.{verify-mac, accepts-protected, next_dl_count_lem}
use g_cn_testbed_k8s.Ue.Handler.{handler_service_accept}
use g_cn_testbed_k8s.Ue.Manager.{from_gnb, ue_step, gnb_msg_handler}
use g_cn_testbed_k8s.Ue.Manager.Registered.{BringsRegistration, step-Registers}
use g_cn_testbed_k8s.Examples.Data.{value_or, crypto, counter, nas_env, decoder, ue_1}

counter-IsCounter : IsCounter counter
counter-IsCounter = record {
  sqn-set_sqn = λ n s. omega arith;
  overflow-set_sqn = λ n s. omega arith;
  sqn-set_overflow = λ n o. omega arith;
  overflow-set_overflow = λ n o. omega arith;
}

-- A protected message with the MAC that the libraries of the example give, and one with another.
abbrev good : List ℕ
good = 126 ∷ 1 ∷ 1 ∷ 2 ∷ 3 ∷ 4 ∷ 5 ∷ 9 ∷ []

abbrev bad : List ℕ
bad = 126 ∷ 1 ∷ 1 ∷ 2 ∷ 3 ∷ 5 ∷ 5 ∷ 9 ∷ []

abbrev nas_message : UeMessage
nas_message = record empty_message { is_nas = true; nas = some good }

abbrev registered : Ue
registered =
    (value_or (true, ue_1)
      (ue_step nas_env decoder (λ s m. ok s) ue_1 (from_gnb (some nas_message)))).1

step-Registers_example :
    (ue_1.state_mm ≡ mm5g_registered)
    ⊎ BringsRegistration nas_env decoder ue_1 (from_gnb (some nas_message))
unfolding ue_step gnb_msg_handler dispatch_nas receive verify split next_dl_count deciphered
    check_context check_integrity handle handler_service_accept text_eq
step-Registers_example =
    step-Registers nas_env decoder (λ s m. ok s) ue_1 registered (from_gnb (some nas_message)) true
      refl refl

abbrev dropped : Ue
dropped = with_dl_count ue_1 5

dropped-keys_example :
    (dispatch_nas nas_env decoder ue_1 (some bad) ≡ ok dropped)
    × (dropped ≡ with_keys_of ue_1 dropped)
unfolding receive verify split next_dl_count deciphered check_context check_integrity text_eq
dropped-keys_example = dropped-keys nas_env decoder ue_1 dropped bad refl

verify-mac_example :
    (p : Protected) × (split good ≡ ok p)
    × (nas_env.mac_downlink 2 [] 5 (p.sequence_number ∷ p.payload) ≡ some p.mac)
unfolding verify split next_dl_count deciphered check_context check_integrity text_eq
verify-mac_example = verify-mac nas_env decoder ue_1 dropped 1 good service_accept refl

abbrev command : SecurityModeCommand
command = record {
  header = record { epd = 126; spare = 0; security_header_type = 0; message_type = 93 };
  algorithms = 33;
  ngksi_spare = 0;
  ngksi = 0;
  tsc = 0;
  replayed_set = true;
}

abbrev command_decoder : Decoder
command_decoder = record {
  security_header_type = λ b. 3;
  plain_nas_decode = λ b. security_mode_command command;
  decode_gsm = λ b. none;
}

abbrev forged : Ue
forged = value_or ue_1 (
    take_new_context nas_env command_decoder
      (with_dl_count ue_1 (next_dl_count nas_env command_decoder 0 5)) command)

forged_command_example :
    (dispatch_nas nas_env command_decoder ue_1 (some bad) ≡ ok forged)
    × (receive nas_env command_decoder ue_1 bad ≡ ok (forged, none))
    × (forged.security.ciphering_alg ≡ 33 / 16)
    × (forged.security.integrity_alg ≡ 33 % 16)
    × (forged.security.dl_count ≡ counter.count_of 0 0)
unfolding split next_dl_count take_new_context derivate_alg_key
forged_command_example =
    forged_command nas_env command_decoder ue_1 forged bad
      (record { mac = 1 ∷ 2 ∷ 3 ∷ 5 ∷ []; sequence_number = 5; payload = 9 ∷ [] }) command
      (1 ∷ 2 ∷ 3 ∷ 4 ∷ []) refl refl refl refl refl (λ e. ground arith)

accepts-protected_example :
    verify nas_env decoder ue_1 1 (126 ∷ 1 ∷ 1 ∷ 2 ∷ 3 ∷ 4 ∷ 5 ∷ 9 ∷ [])
    ≡ ok (with_dl_count ue_1 (next_dl_count nas_env decoder 0 5), some service_accept)
accepts-protected_example = accepts-protected nas_env decoder ue_1 1 2 3 4 5 (9 ∷ []) refl

next_dl_count_lem_example :
    (counter.sqn (next_dl_count nas_env decoder 200 5) ≡ 5)
    × (counter.overflow (next_dl_count nas_env decoder 200 5) ≡ (
        if ltb 5 (counter.sqn 200)
        then (counter.overflow 200 + 1) % 2 ^ 16
        else counter.overflow 200))
next_dl_count_lem_example = next_dl_count_lem nas_env decoder 200 5 counter-IsCounter (omega arith)

nas_encode-IsCounted_example :
    IsCounted nas_env
      (counting nas_env ue_1 true)
      4
      (nas_encode nas_env ue_1 (7 ∷ []) 4 true true).0
      (nas_encode nas_env ue_1 (7 ∷ []) 4 true true).1
nas_encode-IsCounted_example = nas_encode-IsCounted nas_env ue_1 (7 ∷ []) 4 true

-- The challenge whose MAC the example's Milenage gives, with the sequence number 1.
abbrev autn : List ℕ
autn = 0 ∷ 0 ∷ 0 ∷ 0 ∷ 0 ∷ 1 ∷ 128 ∷ 0 ∷ replicate 8 7

abbrev authenticated : Ue
authenticated = set_kamf ue_1 (replicate 32 6)

accepted_challenge :
    derive_res_star_and_set_key crypto ue_1 ue_1.security.subscription (replicate 16 0) [] autn
    ≡ ok (authenticated, replicate 16 6, successful)
unfolding derive_res_star_and_set_key hex_or_fatal hex_decode from_hex_char derive_autn xor_into
    bytes_greater text_eq set_key derivate_kamf supi_digits leading_digits
accepted_challenge = refl

replay_accepted_example :
    derive_res_star_and_set_key crypto authenticated authenticated.security.subscription
      (replicate 16 0)
      []
      autn
    ≡ ok (authenticated, replicate 16 6, successful)
replay_accepted_example =
    replay_accepted crypto ue_1 authenticated (replicate 16 0) autn (replicate 16 6) []
      accepted_challenge

derive-IsJudged_example :
    (opc k sqn_ue amf sqn_hn : List ℕ) × (hex_or_fatal (codes "00") ≡ ok opc)
    × (hex_or_fatal (codes "00") ≡ ok k)
    × (hex_or_fatal (codes "000000000000") ≡ ok sqn_ue)
    × (hex_or_fatal (codes "8000") ≡ ok amf)
    × (xor_into 6 (take 6 autn) (crypto.f2345 opc k (replicate 16 0)).ak ≡ ok sqn_hn)
    × IsJudged crypto
        (text_eq (crypto.f1 opc k (replicate 16 0) sqn_hn amf).0 (drop 8 autn))
        (bytes_greater sqn_ue sqn_hn)
        ue_1
        authenticated
        successful
derive-IsJudged_example =
    derive-IsJudged crypto ue_1 authenticated ue_1.security.subscription (replicate 16 0) autn
      (replicate 16 6) [] successful accepted_challenge

abbrev capability : Capability
capability = record {
  ia0 = false;
  ia1 = false;
  ia2 = true;
  ia3 = true;
  ea0 = true;
  ea1 = false;
  ea2 = true;
  ea3 = false;
}

select-IsLowest_example :
    IsLowest (integrity_bits capability) (select_algorithms capability).0
    × IsLowest (ciphering_bits capability) (select_algorithms capability).1
select-IsLowest_example = select-IsLowest capability 3 2 refl refl

create-IsFirstFree_example :
    (k : ℕ) × IsFirstFree ue_1.pdu_session k
    × ((create_pdu_session ue_1).1 ≡ some 1)
    × (lookup 1 (create_pdu_session ue_1).0.session_heap ≡ some (new_session (k + 1)))
    × ((j : ℕ)
        → get_elem? (create_pdu_session ue_1).0.pdu_session j
          ≡ (if k == j then some (some 1) else get_elem? ue_1.pdu_session j))
create-IsFirstFree_example = create-IsFirstFree ue_1 7 refl

abbrev nearly_full : Ue
nearly_full = record ue_1 { pdu_session = replicate 15 (some 0) ++ none ∷ [] }

last-IsFirstFree : IsFirstFree nearly_full.pdu_session 15
unfolding first_free
last-IsFirstFree = first_free-IsFirstFree nearly_full.pdu_session 15 refl

-- The pointer 1 is new: every place that is taken has the pointer 0.
taken_0 : (n j p : ℕ) → get_elem? (replicate n (some 0) ++ none ∷ []) j ≡ some (some p) → p ≡ 0
taken_0 zero zero p h = absurd (ground arith)
taken_0 zero (suc j) p h = absurd (ground arith)
taken_0 (suc n) zero p h = ground arith
taken_0 (suc n) (suc j) p h = taken_0 n j p h

nearly_full-fresh : (j p : ℕ) → get_elem? nearly_full.pdu_session j ≡ some (some p) → p ≢ 1
nearly_full-fresh j p h e = absurd (omega (arith, taken_0 15 j p h))

create_16_example :
    (lookup 1 (create_pdu_session nearly_full).0.session_heap ≡ some (new_session 16))
    × (get_elem? (create_pdu_session nearly_full).0.pdu_session 15 ≡ some (some 1))
    × ((id : ℕ) → get_pdu_session (create_pdu_session nearly_full).0 id ≢ ok (some 1))
    × ((id : ℕ) (w : Ue)
        → delete_pdu_session (create_pdu_session nearly_full).0 id ≡ ok w
        → get_elem? w.pdu_session 15 ≡ some (some 1))
create_16_example = create_16 nearly_full last-IsFirstFree nearly_full-fresh
