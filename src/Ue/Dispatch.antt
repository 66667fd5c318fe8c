-- ===== src/Ue/Dispatch.antt =====
-- `DispatchNas` of PacketRusher/internal/control_test_engine/ue/nas/dispatcher.go.
pub mod Dropped
pub mod Integrity
use g_cn_testbed_k8s.Base.{
  ℕ, ◌+◌, ◌/◌, ◌%◌, ◌^◌, Bool, true, false, ◌&&◌, List, [], ◌∷◌, Option, none, some, Result, ok,
  fatal, panic, ◌>>=◌, ltb, ◌==◌, if◌then◌else◌, text_eq,
}
use g_cn_testbed_k8s.Ue.State.{Ue, Security}
use g_cn_testbed_k8s.Ue.Auth.{derivate_alg_key}
use g_cn_testbed_k8s.Ue.Encode.{
  NasEnv, Counter, integrity_protected_and_ciphered, integrity_protected_with_new_context,
  integrity_protected_and_ciphered_with_new_context,
}
use g_cn_testbed_k8s.Ue.Message.{
  Message, no_message, authentication_reject, service_accept, other_message, with_cause,
  authentication_request, identity_request, security_mode_command, registration_accept,
  configuration_update_command, dl_nas_transport, GsmMessage, SecurityModeCommand,
}
use g_cn_testbed_k8s.Ue.Handler.{
  handler_authentication_reject, handler_authentication_request, handler_security_mode_command,
  handler_registration_accept, handler_service_accept, handler_identity_request,
  handler_configuration_update_command,
}
use g_cn_testbed_k8s.Ue.Handler.Session.{handler_dl_nas_transport_pduaccept}

-- The decoders of the NAS library: the type of the security header, a plain message, and the
-- payload of a DL NAS Transport.
pub record Decoder : Type 0 where
  pub security_header_type : List ℕ → ℕ
  pub plain_nas_decode : List ℕ → Message
  pub decode_gsm : List ℕ → Option GsmMessage

-- A message with a security header, taken apart: octets 2 to 5, octet 6, and what follows it.
pub record Protected : Type 0 where
  pub mac : List ℕ
  pub sequence_number : ℕ
  pub payload : List ℕ

-- A message that is too short is an index out of range.
unfoldable pub split : List ℕ → Result Protected
split (e ∷ h ∷ m0 ∷ m1 ∷ m2 ∷ m3 ∷ s ∷ payload) =
    ok (record { mac = m0 ∷ m1 ∷ m2 ∷ m3 ∷ []; sequence_number = s; payload = payload })
split _ = panic

abbrev pub with_dl_count : Ue → ℕ → Ue
with_dl_count ue c = record ue { security = record ue.security { dl_count = c } }

module _ (env : NasEnv) (decoder : Decoder) where
  -- The downlink count: a sequence number below the last one counts as an overflow.
  unfoldable pub next_dl_count : ℕ → ℕ → ℕ
  next_dl_count count sequence_number =
      env.counter.set_sqn
        (if ltb sequence_number (env.counter.sqn count)
          then env.counter.set_overflow count ((env.counter.overflow count + 1) % 2 ^ 16)
          else count)
        sequence_number

  -- What a Security Mode Command with a new security context changes before it is verified.
  unfoldable pub take_new_context : Ue → SecurityModeCommand → Result Ue
  take_new_context ue m = derivate_alg_key env.crypto (record ue {
    security = record ue.security {
      dl_count = env.counter.count_of 0 0;
      ciphering_alg = m.algorithms / 16;
      integrity_alg = m.algorithms % 16;
    };
  })

  -- The comparison of the two MACs; a message that fails it is dropped.
  unfoldable pub check_integrity : Ue → Protected → Message → Ue × Option Message
  check_integrity ue p m =
      elim (env.mac_downlink ue.security.integrity_alg ue.security.knas_int ue.security.dl_count
        (p.sequence_number ∷ p.payload)) [
          | none ↦ (ue, none)
          | some mac ↦ (ue, if text_eq mac p.mac then some m else none)
        ]

  -- From the decoded message on; under a new context only a Security Mode Command is looked at.
  unfoldable pub check_context : Ue → Bool → Protected → Message → Result (Ue × Option Message)
  unfolding check_integrity
  check_context ue false p m = ok (check_integrity ue p m)
  check_context ue true p no_message = panic
  check_context ue true p (security_mode_command c) =
      take_new_context ue c >>= λ u. ok (check_integrity u p (security_mode_command c))
  check_context ue true p _ = ok (ue, none)

  -- The payload of a message under the header type, deciphered where that says so; none on an error.
  unfoldable pub deciphered : Ue → ℕ → List ℕ → Option (List ℕ)
  deciphered ue header payload =
      if header == integrity_protected_and_ciphered
      then env.encrypt_downlink ue.security.ciphering_alg ue.security.knas_enc ue.security.dl_count
          payload
      else some payload

  -- A message with a security header: the UE afterwards, and the message if it goes on.
  unfoldable pub verify : Ue → ℕ → List ℕ → Result (Ue × Option Message)
  unfolding split next_dl_count deciphered check_context
  verify ue header message = split message >>= λ p.
      if header == integrity_protected_and_ciphered_with_new_context
      then ok (ue, none)
      else let u = with_dl_count ue (next_dl_count ue.security.dl_count p.sequence_number) in
        elim (deciphered u header p.payload) [
          | none ↦ ok (u, none)
          | some plain ↦
              check_context u (header == integrity_protected_with_new_context) p
                (decoder.plain_nas_decode plain)
        ]

  -- The handler for a message type.
  unfoldable pub handle : Ue → Message → Result Ue
  handle ue no_message = panic
  handle ue authentication_reject = ok (handler_authentication_reject ue)
  handle ue service_accept = ok (handler_service_accept env ue)
  handle ue other_message = ok ue
  handle ue with_cause = ok ue
  handle ue (authentication_request m) = handler_authentication_request env ue m
  handle ue (identity_request m) = handler_identity_request env ue m
  handle ue (security_mode_command m) = handler_security_mode_command env ue m
  handle ue (registration_accept m) = handler_registration_accept env ue m
  handle ue (configuration_update_command h) = handler_configuration_update_command env ue h
  handle ue (dl_nas_transport m) = handler_dl_nas_transport_pduaccept env decoder.decode_gsm ue m

  -- The message that is handled, if there is one, and the UE at that point.
  unfoldable pub receive : Ue → List ℕ → Result (Ue × Option Message)
  unfolding verify
  receive ue message =
      let header = decoder.security_header_type message % 16 in
      if header == 0
      then ok (ue, some (decoder.plain_nas_decode message))
      else verify ue header message

  -- `DispatchNas`
  unfoldable pub dispatch_nas : Ue → Option (List ℕ) → Result Ue
  unfolding receive handle
  dispatch_nas ue none = fatal
  dispatch_nas ue (some message) =
      receive ue message >>= λ r. elim r.1 [ none ↦ ok r.0 | some m ↦ handle r.0 m ]
