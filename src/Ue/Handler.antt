-- ===== src/Ue/Handler.antt =====
-- PacketRusher/internal/control_test_engine/ue/nas/handler/handler.go.
pub mod Session
pub mod Keeps
use g_cn_testbed_k8s.Base.{
  ℕ, ◌+◌, ◌/◌, ◌%◌, Bool, true, false, not, ◌&&◌, ◌||◌, List, [], ◌∷◌, ◌++◌, Option, none, some,
  Text, Result, ok, fatal, panic, ◌>>=◌, ◌>>◌, fatal_if, or_panic, get_elem?, ltb, ◌==◌,
  if◌then◌else◌, to_hex_char,
}
use g_cn_testbed_k8s.Ue.State.{
  Ue, Security, StateMm, mm5g_deregistered, mm5g_registered_initiated, mm5g_registered,
  set_state_mm, Uplink, authentication_mac_failure, authentication_sync_failure,
  authentication_response, security_mode_complete, registration_complete, send_to_gnb,
}
use g_cn_testbed_k8s.Ue.Auth.{
  Check, mac_failure, sqn_failure, successful, derive_res_star_and_set_key,
}
use g_cn_testbed_k8s.Ue.Encode.{
  NasEnv, secured, integrity_protected_and_ciphered,
  integrity_protected_and_ciphered_with_new_context, get_registration_request,
}
use g_cn_testbed_k8s.Ue.Message.{
  Header, AuthenticationRequest, SecurityModeCommand, RegistrationAccept, IdentityRequest,
}
use g_cn_testbed_k8s.Ue.Trigger.{
  send_secured, init_identify_response, init_configuration_update_complete,
}

abbrev pub is_set : ℕ → Bool
is_set n = not (n == 0)

-- The checks of the header of a message, which `log.Fatal` where one fails.
unfoldable pub check_header : Header → ℕ → Result (Unit {0})
check_header h message_type = do
  fatal_if (not (is_set h.epd))
  fatal_if (not (h.epd == 126))
  fatal_if (is_set h.spare)
  fatal_if (is_set h.security_header_type)
  fatal_if (not (is_set h.message_type))
  fatal_if (not (h.message_type == message_type))

-- `HandlerAuthenticationReject`
unfoldable pub handler_authentication_reject : Ue → Ue
handler_authentication_reject ue = set_state_mm ue mm5g_deregistered

abbrev pub contents_missing {ℓ} : {A : Type ℓ} → Option A → Bool
contents_missing none = true
contents_missing (some c) = false

unfoldable pub check_authentication_request : AuthenticationRequest → Result (Unit {0})
unfolding check_header
check_authentication_request m = do
  check_header m.header 86
  fatal_if (is_set m.ngksi_spare)
  fatal_if (m.ngksi == 7)
  fatal_if (not m.abba_set)
  fatal_if (contents_missing m.abba_contents)

module _ (env : NasEnv) where
  -- The answer to an authentication request, by what the USIM says of it.
  unfoldable pub answer_authentication : Ue → List ℕ → Check → Ue
  answer_authentication ue param mac_failure =
      send_to_gnb ue (some (env.plain ue.security authentication_mac_failure))
  answer_authentication ue param sqn_failure =
      send_to_gnb ue (some (env.plain ue.security (authentication_sync_failure param)))
  answer_authentication ue param successful =
      send_to_gnb (set_state_mm ue mm5g_registered_initiated)
        (some (env.plain ue.security (authentication_response param)))

  -- `HandlerAuthenticationRequest`
  unfoldable pub handler_authentication_request : Ue → AuthenticationRequest → Result Ue
  unfolding check_authentication_request answer_authentication
  handler_authentication_request ue m = do
    check_authentication_request m
    (ue', param, check) ←
        derive_res_star_and_set_key env.crypto ue ue.security.subscription m.rand ue.security.snn
          m.autn
    ok (answer_authentication ue' param check)

  unfoldable pub check_security_mode_command : SecurityModeCommand → Result (Unit {0})
  unfolding check_header
  check_security_mode_command m = do
    check_header m.header 93
    fatal_if (not (is_set m.algorithms))
    fatal_if (is_set m.ngksi_spare)
    fatal_if (m.ngksi == 7)
    fatal_if (not m.replayed_set)

  -- The flag of the security context: native, mapped, or nothing that is known.
  abbrev pub set_ngksi : Ue → ℕ → ℕ → Ue
  set_ngksi ue ksi tsc = record ue {
    security = record ue.security {
      ksi = ksi;
      tsc_mapped = if tsc == 0 then false else if tsc == 1 then true else ue.security.tsc_mapped;
    };
  }

  -- `HandlerSecurityModeCommand`; the registration request goes along whatever RINMR says.
  unfoldable pub handler_security_mode_command : Ue → SecurityModeCommand → Result Ue
  unfolding check_security_mode_command secured
  handler_security_mode_command ue m = do
    check_security_mode_command m
    let u = set_ngksi ue m.ngksi m.tsc
    (u', pdu) ←
        secured env u
          (security_mode_complete (some (env.plain u.security (get_registration_request u true))))
          integrity_protected_and_ciphered_with_new_context true
    ok (send_to_gnb u' (some pdu))

  -- `%x` of a byte.
  unfoldable pub hex_digits : ℕ → Text
  hex_digits n =
      if ltb n 16 then to_hex_char n ∷ [] else to_hex_char (n / 16) ∷ to_hex_char (n % 16) ∷ []

  -- `fmt.Sprintf("0%x0%x0%x", a, b, c)`
  unfoldable pub sd_text : ℕ → ℕ → ℕ → Text
  unfolding hex_digits
  sd_text a b c = b'0' ∷ (hex_digits a ++ b'0' ∷ (hex_digits b ++ b'0' ∷ hex_digits c))

  -- The slice of the UE, where none was configured, is the first that the network allows.
  unfoldable pub use_allowed_slice : Ue → Option (List ℕ) → Result Ue
  unfolding sd_text
  use_allowed_slice ue nssai = if is_set ue.sst then ok ue else do
    v ← or_panic nssai
    sst ← or_panic (get_elem? v 1)
    a ← or_panic (get_elem? v 2)
    b ← or_panic (get_elem? v 3)
    c ← or_panic (get_elem? v 4)
    ok (record ue { sst = sst; sd = sd_text a b c })

  abbrev save_guti : Ue → Option (ℕ × List ℕ) → Ue
  save_guti ue none = ue
  save_guti ue (some g) = record ue { security = record ue.security { guti = some g } }

  -- `HandlerRegistrationAccept`
  unfoldable pub handler_registration_accept : Ue → RegistrationAccept → Result Ue
  unfolding check_header use_allowed_slice
  handler_registration_accept ue m = do
    check_header m.header 66
    fatal_if (not m.result_set)
    fatal_if (not (m.result == 1))
    ue' ← use_allowed_slice (save_guti (set_state_mm ue mm5g_registered) m.guti) m.allowed_nssai
    send_secured env ue' registration_complete integrity_protected_and_ciphered

  -- `HandlerServiceAccept`
  unfoldable pub handler_service_accept : Ue → Ue
  handler_service_accept ue = set_state_mm ue mm5g_registered

  -- `HandlerIdentityRequest`
  unfoldable pub handler_identity_request : Ue → IdentityRequest → Result Ue
  unfolding check_header
  handler_identity_request ue m = do
    check_header m.header 91
    fatal_if (not m.identity_type_set)
    fatal_if (not (m.type_of_identity == 1))
    init_identify_response env ue

  -- `HandlerConfigurationUpdateCommand`
  unfoldable pub handler_configuration_update_command : Ue → Header → Result Ue
  unfolding check_header
  handler_configuration_update_command ue h =
      check_header h 84 >>= λ _. init_configuration_update_complete env ue
