-- ===== src/Tunnel/Parser.antt =====
-- The token parser of PacketRusher/internal/cmd/gogtp5g-tunnel/cmd.go, and how the option parsers of
-- the other files end.
pub mod Rounds
use g_cn_testbed_k8s.Base.{
  ℕ, zero, suc, ◌+◌, ◌-◌, ◌≡◌, List, [], ◌∷◌, Option, none, some, Text, get_elem?, length, arith,
  lt_of_get_elem?, Option-cases, inl, inr, Bool, true, false, ◌==◌, ◌&&◌, if◌then◌else◌, replicate,
}
use g_cn_testbed_k8s.Strconv.{parse_uint_any}

pub data Refusal : Type 0 where
  requires_argument unknown_option deprecated_option : (opt : Text) → Refusal
  bad_number invalid_address not_ipv4 bad_interface : (arg : Text) → Refusal
  too_few_fields unknown_action unknown_direction no_from no_to bad_ports : Refusal
  too_few_parameters bad_oid : Refusal

-- What a parser returns; `out_of_fuel` is never an answer of the program.
pub data Parsed {ℓ} (A : Type ℓ) : Type ℓ where
  parsed : A → Parsed A
  refused : Refusal → Parsed A
  out_of_fuel : Parsed A

module _ {ℓ κ} {A : Type ℓ} {B : Type κ} where
  infixl 5 ◌>>=◌
  abbrev pub ◌>>=◌ : Parsed A → (A → Parsed B) → Parsed B
  refused why >>= next = refused why
  out_of_fuel >>= next = out_of_fuel
  parsed value >>= next = next value

-- An error for a missing value.
abbrev pub or_refuse {ℓ} : {A : Type ℓ} → Refusal → Option A → Parsed A
or_refuse why none = refused why
or_refuse why (some a) = parsed a

pub record CmdParser : Type 0 where
  pub args : List Text
  pub pos : ℕ

-- `NewCmdParser`
abbrev pub new_cmd_parser : List Text → CmdParser
new_cmd_parser args = record { args = args; pos = 0 }

-- `GetToken`
unfoldable pub get_token : CmdParser → Option (Text × CmdParser)
get_token c = elim (get_elem? c.args c.pos) [
  | none ↦ none
  | some tok ↦ some (tok, record c { pos = c.pos + 1 })
]

-- The argument of an option.
unfoldable pub argument : Text → CmdParser → Parsed (Text × CmdParser)
unfolding get_token
argument opt p = or_refuse (requires_argument opt) (get_token p)

-- The argument of an option, as a number of at most `bits` bits in any base.
unfoldable pub number : (bits : ℕ) → Text → CmdParser → Parsed (ℕ × CmdParser)
unfolding argument
number bits opt p = argument opt p >>= λ t.
    or_refuse (bad_number t.0) (parse_uint_any bits t.0) >>= λ v. parsed (v, t.1)

-- `ParseIP` and `ParseCIDR` of the net package: an address has 16 octets; a network is an address
-- and a mask, of 4 octets each or of 16.
pub record Net : Type 0 where
  pub parse_ip : Text → Option (List ℕ)
  pub parse_cidr : Text → Option (List ℕ × List ℕ)

all_zero : List ℕ → Bool
all_zero [] = true
all_zero (x ∷ l) = x == 0 && all_zero l

-- `IP.To4` of 16 octets.
unfoldable pub to4 : List ℕ → Option (List ℕ)
unfolding all_zero
to4 (i0 ∷ i1 ∷ i2 ∷ i3 ∷ i4 ∷ i5 ∷ i6 ∷ i7 ∷ i8 ∷ i9 ∷ i10 ∷ i11 ∷ a ∷ b ∷ c ∷ d ∷ []) =
    if all_zero (i0 ∷ i1 ∷ i2 ∷ i3 ∷ i4 ∷ i5 ∷ i6 ∷ i7 ∷ i8 ∷ i9 ∷ []) && (i10 == 255 && i11 == 255)
    then some (a ∷ b ∷ c ∷ d ∷ [])
    else none
to4 ip = none

-- The argument of an option, as an IPv4 address.
unfoldable pub ipv4 : Net → Text → CmdParser → Parsed (List ℕ × CmdParser)
unfolding argument
ipv4 net opt p = argument opt p >>= λ t.
    or_refuse (invalid_address t.0) (net.parse_ip t.0) >>= λ ip.
    or_refuse (not_ipv4 t.0) (to4 ip) >>= λ v4. parsed (v4, t.1)

-- How many tokens are left to a parser.
abbrev pub left : CmdParser → ℕ
left c = length c.args - c.pos

-- A token that is got leaves one less.
pub get_token-left :
    (c c' : CmdParser) (tok : Text) → get_token c ≡ some (tok, c') → left c ≡ left c' + 1
unfolding get_token
get_token-left c c' tok h = elim (Option-cases (get_elem? c.args c.pos)) [
  | inl e ↦ absurd (ground arith)
  | inr (t, e) ↦ ground (arith, lt_of_get_elem? c.args c.pos t e)
]

-- The loop of the option parsers: it gets an option and runs its case of the switch on what has been
-- read so far, until no token is left. Each round takes a token, so their number bounds the rounds.
module _ {ℓ} {S : Type ℓ} (step : Text → CmdParser → S → Parsed (CmdParser × S)) where
  unfoldable pub run_options : ℕ → CmdParser → S → Parsed S
  run_options zero p s = out_of_fuel
  run_options (suc fuel) p s = elim (get_token p) [
    | none ↦ parsed s
    | some (opt, p') ↦ step opt p' s >>= λ r. run_options fuel r.0 r.1
  ]

  unfoldable pub parse_options : List Text → S → Parsed S
  unfolding run_options
  parse_options args s = run_options (length args + 1) (new_cmd_parser args) s
