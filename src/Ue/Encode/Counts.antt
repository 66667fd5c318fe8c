-- ===== src/Ue/Encode/Counts.antt =====
-- The counts and the octets of protected uplink messages: `NASEncode`, and the flags of the PDU
-- sessions.
use g_cn_testbed_k8s.Base.{
  ℕ, ◌+◌, ◌%◌, ◌^◌, ◌≡◌, ap, refl, Bool, true, List, [], ◌∷◌, ◌++◌, Option, none, some, arith,
  Option-cases, inl, inr, length, if◌then◌else◌,
}
use g_cn_testbed_k8s.Ue.State.{Ue}
use g_cn_testbed_k8s.Ue.Encode.{
  NasEnv, nas_encode, ciphered, reset_counts, flags_from, epd_mobility_management,
}

module _ (env : NasEnv) where
  -- The UE whose count a message takes: that of a new context is reset first.
  abbrev pub counting : Ue → Bool → Ue
  counting ue new = if new then reset_counts env ue else ue

  -- What `NASEncode` makes of a message that it protects. A message that comes out has six octets of
  -- header and MAC where the MAC has four, then the sequence number of the count that the MAC was
  -- made with, then the payload, and the count goes up by one; an error leaves the count.
  pub IsCounted : Ue → ℕ → Ue → Option (List ℕ) → Type 0
  IsCounted v header u none = u.security.ul_count ≡ v.security.ul_count
  IsCounted v header u (some out) =
      (mac payload : List ℕ) × (u.security.ul_count ≡ env.counter.add_one v.security.ul_count)
      × (env.mac_uplink v.security.integrity_alg v.security.knas_int v.security.ul_count
            (env.counter.sqn v.security.ul_count ∷ payload)
          ≡ some mac)
      × (out
          ≡ epd_mobility_management
            ∷ header
            ∷ (mac ++ env.counter.sqn v.security.ul_count ∷ payload))

  -- `NASEncode` with a security context takes the uplink count once for each message that comes out,
  -- after it has been reset for a new context, and for none that does not.
  pub nas_encode-IsCounted :
      (ue : Ue) (msg : List ℕ) (header : ℕ) (new : Bool)
      → IsCounted
          (counting ue new)
          header
          (nas_encode env ue msg header true new).0
          (nas_encode env ue msg header true new).1
  unfolding nas_encode IsCounted
  nas_encode-IsCounted ue msg header new =
      let v = counting ue new in
      let seq = env.counter.sqn v.security.ul_count in
      elim (Option-cases (env.plain_nas_encode msg)) [
        | inl e ↦ rw (e, nas_encode) refl
        | inr (plain, e) ↦ elim (Option-cases (ciphered env v header plain)) [
          | inl c ↦ rw (e, nas_encode) rw (c) refl
          | inr (payload, c) ↦
              elim (Option-cases (
                env.mac_uplink v.security.integrity_alg v.security.knas_int v.security.ul_count
                  (seq ∷ payload))) [
                    | inl d ↦ rw (e, nas_encode) rw (c) rw (d) refl
                    | inr (mac, d) ↦ rw (e, nas_encode) rw (c) rw (d) (mac, payload, refl, d, refl)
                  ]
        ]
      ]

flags_from_last :
    (i p : ℕ) (t : List (Option ℕ))
    → i + length t ≡ 15
    → flags_from i (t ++ some p ∷ []) ≡ flags_from i (t ++ none ∷ [])
unfolding flags_from
flags_from_last i p [] e = let at : i ≡ 15 = omega arith in rw (at) refl
flags_from_last i p (none ∷ t) e = flags_from_last (i + 1) p t (omega arith)
flags_from_last i p (some q ∷ t) e =
    ap (λ x. (2 ^ (i + 1) + x) % 2 ^ 16) (flags_from_last (i + 1) p t (omega arith))

-- The flag of the last session is lost: the flags of a table of 16 are the same with a session in its
-- last place and without one.
pub pdu_flag_last :
    (t : List (Option ℕ)) (p : ℕ)
    → length t ≡ 15
    → flags_from 0 (t ++ some p ∷ []) ≡ flags_from 0 (t ++ none ∷ [])
pdu_flag_last t p e = flags_from_last 0 p t (omega arith)
