-- ===== src/Ue/Auth/Replay.antt =====
-- How `DeriveRESstarAndSetKey` of PacketRusher/internal/control_test_engine/ue/context/context.go
-- judges a challenge, and what it remembers of it.
use g_cn_testbed_k8s.Base.{
  AreOctets, take, drop, ℕ, zero, suc, ◌+◌, ◌*◌, ◌^◌, ◌<◌, ◌≡◌, ◌↔◌, sym, refl, subst, Bool, true,
  false, not, List, [], ◌∷◌, ◌++◌, Text, Result, ok, ◌>>=◌, >>=-eq-ok, arith, text_eq,
  if◌then◌else◌, length,
}
use g_cn_testbed_k8s.Ue.State.{Ue, Subscription}
use g_cn_testbed_k8s.Ue.Auth.{
  Crypto, Milenage, Check, mac_failure, sqn_failure, successful, hex_or_fatal, derive_autn,
  bytes_greater, set_key, set_kamf, derivate_kamf, derive_res_star_and_set_key, xor_into,
}

-- The value of octets, the first one the highest.
abbrev pub value : List ℕ → ℕ
value [] = 0
value (b ∷ bs) = b * 256 ^ length bs + value bs

-- Of two numbers, the one with the greater leading digit is greater.
leading_lt : (p x y r s : ℕ) → s < p → y < x → y * p + s < x * p + r
leading_lt p zero y r s a b = omega arith
leading_lt p (suc x) zero r s a b = omega arith
leading_lt p (suc x) (suc y) r s a b = omega (arith, leading_lt p x y r s a (omega arith))

pub pow_suc : (n : ℕ) → 256 ^ suc n ≡ 256 * 256 ^ n
pow_suc n = omega arith

value_bound : (bs : List ℕ) → AreOctets bs → value bs < 256 ^ length bs
value_bound [] v = ground arith
value_bound (b ∷ bs) (lt, v) = omega (
  arith,
  pow_suc (length bs),
  leading_lt (256 ^ length bs) 256 b 0 (value bs) (value_bound bs v) lt,
)

-- For two strings of octets of one length, `bytes.Compare` is positive where the first has the
-- greater value.
pub bytes_greater-value :
    (xs ys : List ℕ)
    → length xs ≡ length ys
    → AreOctets xs
    → AreOctets ys
    → (bytes_greater xs ys ≡ true) ↔ (value ys < value xs)
unfolding bytes_greater
bytes_greater-value [] [] e v w = (λ h. ground arith, λ h. ground arith)
bytes_greater-value [] (y ∷ ys) e v w = absurd (ground arith)
bytes_greater-value (x ∷ xs) [] e v w = absurd (ground arith)
bytes_greater-value (x ∷ xs) (y ∷ ys) e (a, v) (b, w) =
    let ih = bytes_greater-value xs ys (omega arith) v w in
    let l : length ys ≡ length xs = omega arith in
    let bx = value_bound xs v in
    let by : value ys < 256 ^ length xs = rw (sym l) (value_bound ys w) in
    let p = leading_lt (256 ^ length xs) x y (value xs) (value ys) by in
    let q = leading_lt (256 ^ length xs) y x (value ys) (value xs) bx in
    rw (l) (ground (arith, ih, p, q))

module _ (crypto : Crypto) where
  kamf-shape :
      (ue u : Ue) (key : List ℕ) (snn : Text) (sqn ak : List ℕ)
      → derivate_kamf crypto ue key snn sqn ak ≡ ok u
      → u ≡ set_kamf ue u.security.kamf
  unfolding derivate_kamf
  kamf-shape ue u key snn sqn ak h = ground arith

  set_key-shape :
      (ue u : Ue) (m : Milenage) (snn : Text) (rand sqn param : List ℕ) (check : Check)
      → set_key crypto ue m snn rand sqn ≡ ok (u, param, check)
      → (u ≡ set_kamf ue u.security.kamf) × (check ≡ successful)
  unfolding set_key
  set_key-shape ue u m snn rand sqn param check h =
      ground (arith, kamf-shape ue u (m.ck ++ m.ik) snn sqn m.ak)

  -- The judgement of a challenge, by the answer: the MAC is wrong and the UE stays as it is; the MAC
  -- is right, the sequence number older than that of the UE, and the UE stays as it is; or the MAC
  -- is right, the sequence number not older, and the UE gets a new key K_AMF and changes in nothing
  -- else.
  pub IsJudged : (mac_right older : Bool) (ue u : Ue) → Check → Type 0
  IsJudged mac_right older ue u mac_failure = (mac_right ≡ false) × (u ≡ ue)
  IsJudged mac_right older ue u sqn_failure = (mac_right ≡ true) × (older ≡ true) × (u ≡ ue)
  IsJudged mac_right older ue u successful =
      (mac_right ≡ true) × (older ≡ false) × (u ≡ set_kamf ue u.security.kamf)

  judge :
      (ue u : Ue) (m : Milenage) (snn : Text) (rand sqn param other : List ℕ) (check : Check)
      (mac_right older : Bool) (x : Result (List ℕ))
      → (if not mac_right
          then ok (ue, [], mac_failure)
          else if older
          then (x >>= λ y. ok (ue, y ++ other, sqn_failure))
          else set_key crypto ue m snn rand sqn)
        ≡ ok (u, param, check)
      → IsJudged mac_right older ue u check
  unfolding IsJudged
  judge ue u m snn rand sqn param other check false older x h =
      let c : check ≡ mac_failure = ground arith in
      subst (λ y. IsJudged false older ue u y) (sym c) (refl, ground arith)
  judge ue u m snn rand sqn param other check true true x h =
      let c : check ≡ sqn_failure = ground arith in
      subst (λ y. IsJudged true true ue u y) (sym c) (refl, refl, ground arith)
  judge ue u m snn rand sqn param other check true false x h =
      let (e, c) = set_key-shape ue u m snn rand sqn param check h in
      subst (λ y. IsJudged true false ue u y) (sym c) (refl, refl, e)

  -- `DeriveRESstarAndSetKey` judges a challenge by the MAC that Milenage gives for the subscription
  -- and the sequence number in the challenge, and by the order of that number and the UE's.
  pub derive-IsJudged :
      (ue u : Ue) (sub : Subscription) (rand autn param : List ℕ) (snn : Text) (check : Check)
      → derive_res_star_and_set_key crypto ue sub rand snn autn ≡ ok (u, param, check)
      → (opc k sqn_ue amf sqn_hn : List ℕ) × (hex_or_fatal sub.opc ≡ ok opc)
        × (hex_or_fatal sub.permanent_key ≡ ok k)
        × (hex_or_fatal sub.sequence_number ≡ ok sqn_ue)
        × (hex_or_fatal sub.amf ≡ ok amf)
        × (xor_into 6 (take 6 autn) (crypto.f2345 opc k rand).ak ≡ ok sqn_hn)
        × IsJudged
            (text_eq (crypto.f1 opc k rand sqn_hn amf).0 (drop 8 autn))
            (bytes_greater sqn_ue sqn_hn)
            ue
            u
            check
  unfolding derive_res_star_and_set_key derive_autn
  derive-IsJudged ue u sub rand autn param snn check h =
      let (opc, e1, h1) = >>=-eq-ok (hex_or_fatal sub.opc) _ h in
      let (k, e2, h2) = >>=-eq-ok (hex_or_fatal sub.permanent_key) _ h1 in
      let (q, e3, h3) = >>=-eq-ok (hex_or_fatal sub.sequence_number) _ h2 in
      let (amf, e4, h4) = >>=-eq-ok (hex_or_fatal sub.amf) _ h3 in
      let m = crypto.f2345 opc k rand in
      let (r, e5, h5) = >>=-eq-ok (derive_autn autn m.ak) _ h4 in
      let (s, e6, h6) = >>=-eq-ok (xor_into 6 (take 6 autn) m.ak) _ e5 in
      let er : r ≡ (s, take 2 (drop 6 autn), drop 8 autn) = ground arith in
      (
        opc,
        k,
        q,
        amf,
        s,
        e1,
        e2,
        e3,
        e4,
        e6,
        subst
            (λ x.
              IsJudged (text_eq (crypto.f1 opc k rand x.0 amf).0 x.2) (bytes_greater q x.0) ue u
                check)
            er
            (judge ue u m snn rand r.0 param (crypto.f1 opc k rand q (0 ∷ 0 ∷ [])).1 check
              (text_eq (crypto.f1 opc k rand r.0 amf).0 r.2) (bytes_greater q r.0)
              (xor_into 6 q m.ak_star) h5),
      )

  judged-kamf :
      (ue u : Ue) (mac_right older : Bool)
      → IsJudged mac_right older ue u successful
      → u ≡ set_kamf ue u.security.kamf
  unfolding IsJudged
  judged-kamf ue u mac_right older (mac, fresh, e) = e

  success-kamf :
      (ue u : Ue) (rand autn param : List ℕ) (snn : Text)
      → derive_res_star_and_set_key crypto ue ue.security.subscription rand snn autn
        ≡ ok (u, param, successful)
      → u ≡ set_kamf ue u.security.kamf
  success-kamf ue u rand autn param snn h =
      let (opc, k, q, amf, r, e1, e2, e3, e4, e5, w) =
        derive-IsJudged ue u ue.security.subscription rand autn param snn successful h in
      judged-kamf ue u _ _ w

  set_key-kamf :
      (ue : Ue) (key : List ℕ) (m : Milenage) (snn : Text) (rand sqn : List ℕ)
      → set_key crypto (set_kamf ue key) m snn rand sqn ≡ set_key crypto ue m snn rand sqn
  unfolding set_key derivate_kamf
  set_key-kamf ue key m snn rand sqn = refl

  -- A challenge that was accepted is accepted again: the sequence number that it carried is written
  -- to a copy of the subscription, so the UE forgets that it has seen it.
  pub replay_accepted :
      (ue u : Ue) (rand autn param : List ℕ) (snn : Text)
      → derive_res_star_and_set_key crypto ue ue.security.subscription rand snn autn
        ≡ ok (u, param, successful)
      → derive_res_star_and_set_key crypto u u.security.subscription rand snn autn
        ≡ ok (u, param, successful)
  unfolding derive_res_star_and_set_key
  replay_accepted ue u rand autn param snn h =
      let e : u ≡ set_kamf ue u.security.kamf = success-kamf ue u rand autn param snn h in
      subst
        (λ x.
          derive_res_star_and_set_key crypto x x.security.subscription rand snn autn
          ≡ ok (u, param, successful))
        (sym e) (ground (arith, set_key-kamf ue u.security.kamf))
