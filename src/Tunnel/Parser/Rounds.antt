-- ===== src/Tunnel/Parser/Rounds.antt =====
-- The option parsers end: every round of their loop takes a token, so that the tokens bound the rounds.
use g_cn_testbed_k8s.Base.{
  ℕ, sym, subst, zero, suc, ◌+◌, ◌≤◌, ◌<◌, List, Option, none, some, Text, arith, length,
  Option-cases, inl, inr,
}
use g_cn_testbed_k8s.Tunnel.Parser.{
  Parsed, parsed, refused, out_of_fuel, Refusal, ◌>>=◌, or_refuse, CmdParser, new_cmd_parser, left,
  get_token, get_token-left, argument, number, ipv4, Net, to4, run_options, parse_options,
}
use g_cn_testbed_k8s.Strconv.{parse_uint_any}

-- A result that is not for want of fuel, with what is given of its value.
abbrev pub Ends {ℓ} : {A : Type ℓ} → (A → Type 0) → Parsed A → Type 0
Ends P (parsed a) = P a
Ends P (refused why) = Unit
Ends P out_of_fuel = ⊥

pub Ends-bind {ℓ κ} :
    {A : Type ℓ} {B : Type κ} (P : A → Type 0) (Q : B → Type 0) (m : Parsed A) (k : A → Parsed B)
    → Ends P m
    → ((a : A) → P a → Ends Q (k a))
    → Ends Q (m >>= k)
Ends-bind P Q (parsed a) k h f = f a h
Ends-bind P Q (refused why) k h f = tt
Ends-bind P Q out_of_fuel k h f = h

pub or_refuse-Ends {ℓ} :
    {A : Type ℓ} (why : Refusal) (o : Option A) → Ends (λ _. Unit) (or_refuse why o)
or_refuse-Ends why none = tt
or_refuse-Ends why (some a) = tt

-- The parser behind a value has no more tokens left than `n`.
abbrev pub Leaves {ℓ} : {A : Type ℓ} → ℕ → A × CmdParser → Type 0
Leaves n t = left t.1 ≤ n

pub argument-Ends : (opt : Text) (p : CmdParser) → Ends (Leaves (left p)) (argument opt p)
unfolding argument
argument-Ends opt p = elim (Option-cases (get_token p)) [
  | inl e ↦ rw e tt
  | inr ((t, q), e) ↦ rw e (omega (arith, get_token-left p q t e))
]

pub number-Ends :
    (bits : ℕ) (opt : Text) (p : CmdParser) → Ends (Leaves (left p)) (number bits opt p)
unfolding number
number-Ends bits opt p =
    Ends-bind (Leaves (left p)) (Leaves (left p)) (argument opt p) _ (argument-Ends opt p) λ t h.
      Ends-bind (λ _. Unit) (Leaves (left p)) (or_refuse _ (parse_uint_any bits t.0)) _
        (or_refuse-Ends _ (parse_uint_any bits t.0)) λ v _. h

pub ipv4-Ends : (net : Net) (opt : Text) (p : CmdParser) → Ends (Leaves (left p)) (ipv4 net opt p)
unfolding ipv4
ipv4-Ends net opt p =
    Ends-bind (Leaves (left p)) (Leaves (left p)) (argument opt p) _ (argument-Ends opt p) λ t h.
      Ends-bind (λ _. Unit) (Leaves (left p)) (or_refuse _ (net.parse_ip t.0)) _
        (or_refuse-Ends _ (net.parse_ip t.0))
        λ ip _.
          Ends-bind (λ _. Unit) (Leaves (left p)) (or_refuse _ (to4 ip)) _
            (or_refuse-Ends _ (to4 ip)) λ v4 _. h

module _ {ℓ} {S : Type ℓ} (step : Text → CmdParser → S → Parsed (CmdParser × S)) where
  -- A case of the switch ends, and gives no token back.
  abbrev pub Advances : Type ℓ
  Advances = (opt : Text) (p : CmdParser) (s : S) → Ends (λ r. left r.0 ≤ left p) (step opt p s)

  -- The rest of a round, by the token that it got.
  abbrev after : ℕ → S → Option (Text × CmdParser) → Parsed S
  after fuel s none = parsed s
  after fuel s (some (opt, p)) = step opt p s >>= λ r. run_options step fuel r.0 r.1

  run-Ends :
      Advances
      → (fuel : ℕ) (p : CmdParser) (s : S) → left p < fuel
      → Ends (λ _. Unit) (run_options step fuel p s)
  unfolding run_options
  run-Ends adv zero p s h = absurd (omega arith)
  run-Ends adv (suc fuel) p s h = elim (Option-cases (get_token p)) [
    | inl e ↦ subst (λ r. Ends (λ _. Unit) (after fuel s r)) (sym e) tt
    | inr ((opt, q), e) ↦
        subst (λ r. Ends (λ _. Unit) (after fuel s r)) (sym e)
          (Ends-bind (λ r. left r.0 ≤ left q) (λ _. Unit) (step opt q s) _ (adv opt q s)
            λ r k. run-Ends adv fuel r.0 r.1 (omega (arith, get_token-left p q opt e)))
  ]

  pub options-Ends :
      Advances → (args : List Text) (s : S) → Ends (λ _. Unit) (parse_options step args s)
  unfolding parse_options
  options-Ends adv args s = run-Ends adv (length args + 1) (new_cmd_parser args) s (omega arith)
