-- ===== src/Ue/Dispatch/Dropped.antt =====
-- What a message that `DispatchNas` of PacketRusher/internal/control_test_engine/ue/nas/dispatcher.go
-- drops leaves behind.
use g_cn_testbed_k8s.Base.{
  ℕ, ◌/◌, ◌%◌, ◌≡◌, ◌≢◌, sym, subst, Bool, true, false, List, ◌∷◌, Option, none, some, ok,
  >>=-eq-ok, arith, Option-cases, Bool-cases, inl, inr, text_eq, text_eq_iff, ◌==◌,
}
use g_cn_testbed_k8s.Ue.State.{Ue}
use g_cn_testbed_k8s.Ue.Auth.{Crypto, derivate_alg_key}
use g_cn_testbed_k8s.Ue.Encode.{
  NasEnv, integrity_protected_with_new_context, integrity_protected_and_ciphered_with_new_context,
}
use g_cn_testbed_k8s.Ue.Message.{
  Message, no_message, security_mode_command, SecurityModeCommand, authentication_reject,
  service_accept, other_message, with_cause, authentication_request, identity_request,
  registration_accept, configuration_update_command, dl_nas_transport,
}
use g_cn_testbed_k8s.Ue.Dispatch.{
  Decoder, Protected, split, with_dl_count, next_dl_count, take_new_context, check_integrity,
  check_context, deciphered, verify, receive, dispatch_nas,
}

-- The UE with the downlink count, the algorithms and the NAS keys of another.
abbrev pub with_keys_of : Ue → Ue → Ue
with_keys_of ue u = record ue {
  security = record ue.security {
    dl_count = u.security.dl_count;
    integrity_alg = u.security.integrity_alg;
    ciphering_alg = u.security.ciphering_alg;
    knas_enc = u.security.knas_enc;
    knas_int = u.security.knas_int;
  };
}

alg_key-keys :
    (crypto : Crypto) (ue u : Ue) → derivate_alg_key crypto ue ≡ ok u → u ≡ with_keys_of ue u
unfolding derivate_alg_key
alg_key-keys crypto ue u h = ground arith

alg_key-algorithms :
    (crypto : Crypto) (ue u : Ue)
    → derivate_alg_key crypto ue ≡ ok u
    → (u.security.ciphering_alg ≡ ue.security.ciphering_alg)
      × (u.security.integrity_alg ≡ ue.security.integrity_alg)
      × (u.security.dl_count ≡ ue.security.dl_count)
unfolding derivate_alg_key
alg_key-algorithms crypto ue u h = ground arith

module _ (env : NasEnv) (decoder : Decoder) where
  take-keys :
      (ue u : Ue) (m : SecurityModeCommand)
      → take_new_context env decoder ue m ≡ ok u
      → (u ≡ with_keys_of ue u)
  unfolding take_new_context
  take-keys ue u m h = alg_key-keys env.crypto _ u h

  take-algorithms :
      (ue u : Ue) (m : SecurityModeCommand)
      → take_new_context env decoder ue m ≡ ok u
      → (u.security.ciphering_alg ≡ m.algorithms / 16)
        × (u.security.integrity_alg ≡ m.algorithms % 16)
        × (u.security.dl_count ≡ env.counter.count_of 0 0)
  unfolding take_new_context
  take-algorithms ue u m h = alg_key-algorithms env.crypto _ u h

  pub integrity-keys :
      (ue u : Ue) (p : Protected) (m : Message) (o : Option Message)
      → check_integrity env decoder ue p m ≡ (u, o)
      → u ≡ ue
  unfolding check_integrity
  integrity-keys ue u p m o h = ground arith

  context-keys :
      (ue u : Ue) (new : Bool) (p : Protected) (m : Message) (o : Option Message)
      → check_context env decoder ue new p m ≡ ok (u, o)
      → u ≡ with_keys_of ue u
  unfolding check_context
  context-keys ue u false p m o h = ground (arith, integrity-keys ue u p m o)
  context-keys ue u true p no_message o h = absurd (ground arith)
  context-keys ue u true p (security_mode_command c) o h =
      let (v, e, h1) = >>=-eq-ok (take_new_context env decoder ue c) _ h in
      let k = integrity-keys v u p (security_mode_command c) o (ground arith) in
      subst (λ x. x ≡ with_keys_of ue x) (sym k) (take-keys ue v c e)
  context-keys ue u true p authentication_reject o h = ground arith
  context-keys ue u true p service_accept o h = ground arith
  context-keys ue u true p other_message o h = ground arith
  context-keys ue u true p with_cause o h = ground arith
  context-keys ue u true p (authentication_request m) o h = ground arith
  context-keys ue u true p (identity_request m) o h = ground arith
  context-keys ue u true p (registration_accept m) o h = ground arith
  context-keys ue u true p (configuration_update_command m) o h = ground arith
  context-keys ue u true p (dl_nas_transport m) o h = ground arith

  pub verify-keys :
      (ue u : Ue) (header : ℕ) (message : List ℕ) (o : Option Message)
      → verify env decoder ue header message ≡ ok (u, o)
      → u ≡ with_keys_of ue u
  unfolding verify
  verify-keys ue u header message o h =
      let (p, e, h1) = >>=-eq-ok (split message) _ h in
      elim (Bool-cases (header == integrity_protected_and_ciphered_with_new_context)) [
        | inl t ↦ ground arith
        | inr f ↦
            let v =
              with_dl_count ue (next_dl_count env decoder ue.security.dl_count p.sequence_number) in
            elim (Option-cases (deciphered env decoder v header p.payload)) [
              | inl d ↦ ground arith
              | inr (plain, d) ↦
                  context-keys v u (header == integrity_protected_with_new_context) p
                    (decoder.plain_nas_decode plain) o (ground arith)
            ]
      ]

  -- A protected or plain message that is dropped changes at most the downlink count, the algorithms
  -- and the NAS keys of the UE: nothing is sent, and no state, session or identity changes.
  pub dropped-keys :
      (ue u : Ue) (message : List ℕ)
      → receive env decoder ue message ≡ ok (u, none)
      → (dispatch_nas env decoder ue (some message) ≡ ok u) × (u ≡ with_keys_of ue u)
  unfolding dispatch_nas receive
  dropped-keys ue u message h = (
    ground arith,
    elim (Bool-cases (decoder.security_header_type message % 16 == 0)) [
      | inl t ↦ absurd (ground arith)
      | inr f ↦
          verify-keys ue u (decoder.security_header_type message % 16) message none (ground arith)
    ],
  )

  -- A message with the security header type 3, integrity protected with a new security context, that
  -- holds a Security Mode Command and has a wrong MAC, is dropped by `DispatchNas`, but its algorithms
  -- and a downlink count of zero stay with the UE, if the keys of the new context can be derived.
  pub forged_command :
      (ue u : Ue) (message : List ℕ) (p : Protected) (c : SecurityModeCommand) (mac : List ℕ)
      → decoder.security_header_type message % 16 ≡ integrity_protected_with_new_context
      → split message ≡ ok p
      → decoder.plain_nas_decode p.payload ≡ security_mode_command c
      → take_new_context env decoder
          (with_dl_count ue (next_dl_count env decoder ue.security.dl_count p.sequence_number))
          c
        ≡ ok u
      → env.mac_downlink u.security.integrity_alg u.security.knas_int u.security.dl_count
          (p.sequence_number ∷ p.payload)
        ≡ some mac
      → mac ≢ p.mac
      → (dispatch_nas env decoder ue (some message) ≡ ok u)
        × (receive env decoder ue message ≡ ok (u, none))
        × (u.security.ciphering_alg ≡ c.algorithms / 16)
        × (u.security.integrity_alg ≡ c.algorithms % 16)
        × (u.security.dl_count ≡ env.counter.count_of 0 0)
  unfolding dispatch_nas receive verify deciphered check_integrity check_context
  forged_command ue u message p c mac t e d k a n =
      let f : text_eq mac p.mac ≡ false = elim (Bool-cases (text_eq mac p.mac)) [
        | inl t ↦ absurd (n ((text_eq_iff mac p.mac).0 t))
        | inr f ↦ f
      ] in
      let (x, y, z) = take-algorithms _ u c k in
      let r : verify env decoder ue integrity_protected_with_new_context message ≡ ok (u, none) =
        ground arith in
      let w : receive env decoder ue message ≡ ok (u, none) = ground arith in
      (ground arith, w, x, y, z)
