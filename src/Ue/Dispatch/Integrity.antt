-- ===== src/Ue/Dispatch/Integrity.antt =====
-- What `DispatchNas` of PacketRusher/internal/control_test_engine/ue/nas/dispatcher.go lets through.
use g_cn_testbed_k8s.Base.{
  ℕ, ◌+◌, ◌%◌, ◌^◌, ◌<◌, ◌≡◌, sym, subst, Bool, true, false, List, [], ◌∷◌, some, ok, >>=-eq-ok,
  arith, Option-cases, Bool-cases, inl, inr, text_eq_iff, text_eq_refl, if◌then◌else◌, ltb, ◌==◌,
}
use g_cn_testbed_k8s.Ue.State.{Ue}
use g_cn_testbed_k8s.Ue.Encode.{
  NasEnv, IsCounter, integrity_protected, integrity_protected_with_new_context,
  integrity_protected_and_ciphered_with_new_context,
}
use g_cn_testbed_k8s.Ue.Message.{
  Message, no_message, security_mode_command, authentication_reject, service_accept, other_message,
  with_cause, authentication_request, identity_request, registration_accept,
  configuration_update_command, dl_nas_transport,
}
use g_cn_testbed_k8s.Ue.Dispatch.{
  Decoder, Protected, split, with_dl_count, next_dl_count, take_new_context, check_integrity,
  check_context, deciphered, verify,
}
use g_cn_testbed_k8s.Ue.Dispatch.Dropped.{integrity-keys}

module _ (env : NasEnv) (decoder : Decoder) where
  integrity-mac :
      (ue u : Ue) (p : Protected) (m n : Message)
      → check_integrity env decoder ue p m ≡ (u, some n)
      → env.mac_downlink u.security.integrity_alg u.security.knas_int u.security.dl_count
          (p.sequence_number ∷ p.payload)
        ≡ some p.mac
  unfolding check_integrity
  integrity-mac ue u p m n h =
      let e : u ≡ ue = integrity-keys env decoder ue u p m (some n) h in
      elim (Option-cases (
        env.mac_downlink ue.security.integrity_alg ue.security.knas_int ue.security.dl_count
          (p.sequence_number ∷ p.payload))) [
            | inl d ↦ absurd (ground arith)
            | inr (mac, d) ↦
                subst
                  (λ x.
                    env.mac_downlink x.security.integrity_alg x.security.knas_int
                      x.security.dl_count (p.sequence_number ∷ p.payload)
                    ≡ some p.mac)
                  (sym e) (ground (arith, text_eq_iff mac p.mac))
          ]

  context-mac :
      (ue u : Ue) (new : Bool) (p : Protected) (m n : Message)
      → check_context env decoder ue new p m ≡ ok (u, some n)
      → env.mac_downlink u.security.integrity_alg u.security.knas_int u.security.dl_count
          (p.sequence_number ∷ p.payload)
        ≡ some p.mac
  unfolding check_context
  context-mac ue u false p m n h = integrity-mac ue u p m n (ground arith)
  context-mac ue u true p no_message n h = absurd (ground arith)
  context-mac ue u true p (security_mode_command c) n h =
      let (v, e, h1) = >>=-eq-ok (take_new_context env decoder ue c) _ h in
      integrity-mac v u p (security_mode_command c) n (ground arith)
  context-mac ue u true p authentication_reject n h = absurd (ground arith)
  context-mac ue u true p service_accept n h = absurd (ground arith)
  context-mac ue u true p other_message n h = absurd (ground arith)
  context-mac ue u true p with_cause n h = absurd (ground arith)
  context-mac ue u true p (authentication_request m) n h = absurd (ground arith)
  context-mac ue u true p (identity_request m) n h = absurd (ground arith)
  context-mac ue u true p (registration_accept m) n h = absurd (ground arith)
  context-mac ue u true p (configuration_update_command m) n h = absurd (ground arith)
  context-mac ue u true p (dl_nas_transport m) n h = absurd (ground arith)

  -- A message with a security header goes on only if its octets 2 to 5 are the MAC of what follows
  -- them, under the algorithm, the key and the downlink count that the UE has from then on.
  pub verify-mac :
      (ue u : Ue) (header : ℕ) (message : List ℕ) (m : Message)
      → verify env decoder ue header message ≡ ok (u, some m)
      → (p : Protected) × (split message ≡ ok p)
        × (env.mac_downlink u.security.integrity_alg u.security.knas_int u.security.dl_count
              (p.sequence_number ∷ p.payload)
            ≡ some p.mac)
  unfolding verify
  verify-mac ue u header message m h =
      let (p, e, h1) = >>=-eq-ok (split message) _ h in
      (
        p,
        e,
        elim (Bool-cases (header == integrity_protected_and_ciphered_with_new_context)) [
          | inl t ↦ absurd (ground arith)
          | inr f ↦
              let v =
                with_dl_count ue
                  (next_dl_count env decoder ue.security.dl_count p.sequence_number) in
              elim (Option-cases (deciphered env decoder v header p.payload)) [
                | inl d ↦ absurd (ground arith)
                | inr (plain, d) ↦
                    context-mac v u (header == integrity_protected_with_new_context) p
                      (decoder.plain_nas_decode plain) m (ground arith)
              ]
        ],
      )

  -- A message that the network protects without ciphering goes on as it was meant, if the MAC was
  -- made with the algorithm and the key of the UE and the count that follows from the sequence
  -- number; the UE then holds that count.
  pub accepts-protected :
      (ue : Ue) (m0 m1 m2 m3 s : ℕ) (payload : List ℕ)
      → env.mac_downlink ue.security.integrity_alg ue.security.knas_int
          (next_dl_count env decoder ue.security.dl_count s)
          (s ∷ payload)
        ≡ some (m0 ∷ m1 ∷ m2 ∷ m3 ∷ [])
      → verify env decoder ue integrity_protected
          (126 ∷ integrity_protected ∷ m0 ∷ m1 ∷ m2 ∷ m3 ∷ s ∷ payload)
        ≡ ok (
          with_dl_count ue (next_dl_count env decoder ue.security.dl_count s),
          some (decoder.plain_nas_decode payload),
        )
  unfolding verify split deciphered check_integrity check_context
  accepts-protected ue m0 m1 m2 m3 s payload h =
      ground (arith, text_eq_refl (m0 ∷ m1 ∷ m2 ∷ m3 ∷ []))

  -- The downlink count takes the sequence number of the message, and counts an overflow, modulo
  -- 65536, where the number went down.
  pub next_dl_count_lem :
      (count s : ℕ)
      → IsCounter env.counter
      → s < 2 ^ 8
      → (env.counter.sqn (next_dl_count env decoder count s) ≡ s)
        × (env.counter.overflow (next_dl_count env decoder count s) ≡ (
            if ltb s (env.counter.sqn count)
            then (env.counter.overflow count + 1) % 2 ^ 16
            else env.counter.overflow count))
  unfolding next_dl_count
  next_dl_count_lem count s v lt =
      let c = env.counter in
      let o = (c.overflow count + 1) % 2 ^ 16 in
      ground (
        arith,
        v.sqn-set_sqn count s,
        v.sqn-set_sqn (c.set_overflow count o) s,
        v.overflow-set_sqn count s,
        v.overflow-set_sqn (c.set_overflow count o) s,
        v.overflow-set_overflow count o,
      )
