-- ===== src/Ue/Encode.antt =====
-- The protection of uplink NAS messages: `EncodeNasPduWithSecurity` and `NASEncode` of
-- ue/nas/message/nas_control/integrity-ciphering-nas.go in
-- PacketRusher/internal/control_test_engine, and the flags of the PDU sessions that
-- mm_5gs/registration-request.go and mm_5gs/service-request.go there send.
pub mod Counts
use g_cn_testbed_k8s.Base.{
  ℕ, ◌≡◌, zero, suc, ◌+◌, ◌*◌, ◌%◌, ◌^◌, Bool, true, false, not, ◌&&◌, ◌||◌, List, [], ◌∷◌, ◌++◌,
  Option, none, some, Result, ok, fatal, panic, ◌>>=◌, or_panic, ◌==◌, if◌then◌else◌,
}
use g_cn_testbed_k8s.Ue.State.{
  Ue, Security, Uplink, registration_request, service_request, deregistration_request,
}
use g_cn_testbed_k8s.Ue.Auth.{Crypto, or_fatal}

-- `security.Count` of the NAS library.
pub record Counter : Type 0 where
  pub sqn : ℕ → ℕ
  pub overflow : ℕ → ℕ
  pub set_sqn : ℕ → ℕ → ℕ
  pub set_overflow : ℕ → ℕ → ℕ
  pub count_of : (overflow sqn : ℕ) → ℕ
  pub add_one : ℕ → ℕ

-- What the documentation of a count promises: a sequence number of 8 bits and an overflow of 16.
pub record IsCounter (c : Counter) : Type 0 where
  pub sqn-set_sqn : (n s : ℕ) → c.sqn (c.set_sqn n s) ≡ s % 2 ^ 8
  pub overflow-set_sqn : (n s : ℕ) → c.overflow (c.set_sqn n s) ≡ c.overflow n
  pub sqn-set_overflow : (n o : ℕ) → c.sqn (c.set_overflow n o) ≡ c.sqn n
  pub overflow-set_overflow : (n o : ℕ) → c.overflow (c.set_overflow n o) ≡ o % 2 ^ 16

-- The libraries behind the NAS of the UE. A cipher works on an algorithm, a key, a count and
-- octets, for one direction. `plain` is what a message is built to; a message with sessions in it is
-- ciphered when it is built, under the security context of the UE.
pub record NasEnv : Type 0 where
  pub counter : Counter
  pub plain : Security → Uplink → List ℕ
  pub decodes : List ℕ → Bool
  pub plain_nas_encode : List ℕ → Option (List ℕ)
  pub encrypt_uplink : (alg : ℕ) (key : List ℕ) (count : ℕ) → List ℕ → Option (List ℕ)
  pub encrypt_downlink : (alg : ℕ) (key : List ℕ) (count : ℕ) → List ℕ → Option (List ℕ)
  pub mac_uplink : (alg : ℕ) (key : List ℕ) (count : ℕ) → List ℕ → Option (List ℕ)
  pub mac_downlink : (alg : ℕ) (key : List ℕ) (count : ℕ) → List ℕ → Option (List ℕ)
  pub crypto : Crypto

-- The security header types of TS 24.501.
abbrev pub integrity_protected : ℕ
integrity_protected = 1

abbrev pub integrity_protected_and_ciphered : ℕ
integrity_protected_and_ciphered = 2

abbrev pub integrity_protected_with_new_context : ℕ
integrity_protected_with_new_context = 3

abbrev pub integrity_protected_and_ciphered_with_new_context : ℕ
integrity_protected_and_ciphered_with_new_context = 4

-- The extended protocol discriminator of 5GS mobility management.
abbrev pub epd_mobility_management : ℕ
epd_mobility_management = 126

-- `pduFlag`, a uint16, from the flag `i` on.
unfoldable pub flags_from : ℕ → List (Option ℕ) → ℕ
flags_from i [] = 0
flags_from i (none ∷ t) = flags_from (i + 1) t
flags_from i (some p ∷ t) = (2 ^ (i + 1) + flags_from (i + 1) t) % 2 ^ 16

unfoldable pub pdu_flag : Ue → ℕ
unfolding flags_from
pdu_flag ue = flags_from 0 ue.pdu_session

-- `GetRegistrationRequest`, `SecurityModeComplete`'s container among them.
unfoldable pub get_registration_request : Ue → Bool → Uplink
unfolding pdu_flag
get_registration_request ue capability =
    registration_request capability ue.security.ksi ue.security.guti (pdu_flag ue)

module _ (env : NasEnv) where
  abbrev pub reset_counts : Ue → Ue
  reset_counts ue = record ue {
    security = record ue.security {
      ul_count = env.counter.count_of 0 0;
      dl_count = env.counter.count_of 0 0;
    };
  }

  abbrev increase_ul_count : Ue → Ue
  increase_ul_count ue = record ue {
    security = record ue.security { ul_count = env.counter.add_one ue.security.ul_count };
  }

  -- The payload, ciphered if the type of the security header asks for it.
  unfoldable pub ciphered : Ue → ℕ → List ℕ → Option (List ℕ)
  ciphered ue header payload =
      if header == integrity_protected || header == integrity_protected_with_new_context
      then some payload
      else env.encrypt_uplink ue.security.ciphering_alg ue.security.knas_enc ue.security.ul_count
          payload

  -- `NASEncode`: the octets, or an error.
  unfoldable pub nas_encode : Ue → List ℕ → ℕ → Bool → Bool → Ue × Option (List ℕ)
  unfolding ciphered
  nas_encode ue msg header false new = (ue, env.plain_nas_encode msg)
  nas_encode ue msg header true new =
      let u = if new then reset_counts ue else ue in
      let seq = env.counter.sqn u.security.ul_count in
      elim (env.plain_nas_encode msg) [
        | none ↦ (u, none)
        | some plain ↦ elim (ciphered u header plain) [
          | none ↦ (u, none)
          | some payload ↦
              elim (env.mac_uplink u.security.integrity_alg u.security.knas_int u.security.ul_count
                (seq ∷ payload)) [
                  | none ↦ (u, none)
                  | some mac ↦ (
                    increase_ul_count u,
                    some (epd_mobility_management ∷ header ∷ (mac ++ seq ∷ payload)),
                  )
                ]
        ]
      ]

  -- `EncodeNasPduWithSecurity`
  unfoldable pub encode_nas_pdu_with_security : Ue → List ℕ → ℕ → Bool → Bool → Ue × Option (List ℕ)
  unfolding nas_encode
  encode_nas_pdu_with_security ue pdu header available new =
      if env.decodes pdu then nas_encode ue pdu header available new else (ue, none)

  -- A message that is built and protected, with `log.Fatal` on an error.
  unfoldable pub secured : Ue → Uplink → ℕ → Bool → Result (Ue × List ℕ)
  unfolding encode_nas_pdu_with_security
  secured ue m header new =
      let (u, pdu) = encode_nas_pdu_with_security ue (env.plain ue.security m) header true new in
      or_fatal pdu >>= λ p. ok (u, p)
