-- ===== src/Tunnel/FlowDesc/Encoding.antt =====
-- The ports of a flow description as octets.
use g_cn_testbed_k8s.Base.{
  ℕ, ◌+◌, ◌*◌, ◌^◌, ◌<◌, ◌≡◌, refl, subst, Option-cases, inl, inr, List, [], ◌∷◌, some, Text, arith,
  map, length,
}
use g_cn_testbed_k8s.Strconv.{parse_uint, cut, split}
use g_cn_testbed_k8s.Strconv.Bounds.{parse_uint-lt}
use g_cn_testbed_k8s.Tunnel.FlowDesc.{
  parse_flow_desc_ports, Ports, port, range, parse_port, parse_each, encode_ports,
}

-- Ports of 16 bits.
abbrev pub InRange : Ports → Type 0
InRange (port p) = p < 2 ^ 16
InRange (range start last) = (start < 2 ^ 16) × (last < 2 ^ 16)

abbrev pub AllInRange : List Ports → Type 0
AllInRange [] = Unit
AllInRange (p ∷ l) = InRange p × AllInRange l

-- What the kernel reads: for each word the low half is the end and the high half the start.
abbrev pub word_at : ℕ → ℕ → ℕ → ℕ → ℕ × ℕ
word_at a b c d = (c + d * 256, a + b * 256)

pub read_ports : List ℕ → List (ℕ × ℕ)
read_ports (a ∷ b ∷ c ∷ d ∷ l) = word_at a b c d ∷ read_ports l
read_ports _ = []

abbrev pub bounds : Ports → ℕ × ℕ
bounds (port p) = (p, p)
bounds (range start last) = (start, last)

some-injective {ℓ} : {A : Type ℓ} (a b : A) → some a ≡ some b → a ≡ b
some-injective a b h = cc

read-encode_ports :
    (l : List Ports)
    → AllInRange l
    → (read_ports (encode_ports l) ≡ map bounds l) × (length (encode_ports l) ≡ 4 * length l)
unfolding read_ports encode_ports
read-encode_ports [] h = (refl, refl)
read-encode_ports (port p ∷ l) (h, hs) =
    let (ih, n) = read-encode_ports l hs in (ground arith, omega arith)
read-encode_ports (range a b ∷ l) ((h, k), hs) =
    let (ih, n) = read-encode_ports l hs in (ground arith, omega arith)

parse_port-InRange : (s : Text) (p : Ports) → parse_port s ≡ some p → InRange p
unfolding parse_port
parse_port-InRange s p h = elim (Option-cases (cut b'-' s)) [
  | inl e ↦ elim (Option-cases (parse_uint 16 s)) [
    | inl x ↦ absurd (ground arith)
    | inr (v, x) ↦ subst InRange (some-injective (port v) p (ground arith)) (parse_uint-lt 16 s v x)
  ]
  | inr ((a, b), e) ↦ elim (Option-cases (parse_uint 16 a)) [
    | inl x ↦ absurd (ground arith)
    | inr (v, x) ↦ elim (Option-cases (parse_uint 16 b)) [
      | inl y ↦ absurd (ground arith)
      | inr (w, y) ↦
          subst InRange (some-injective (range v w) p (ground arith))
            (parse_uint-lt 16 a v x, parse_uint-lt 16 b w y)
    ]
  ]
]

parse_each-AllInRange : (l : List Text) (ps : List Ports) → parse_each l ≡ some ps → AllInRange ps
unfolding parse_each
parse_each-AllInRange [] ps h = subst AllInRange (some-injective [] ps h) tt
parse_each-AllInRange (s ∷ l) ps h = elim (Option-cases (parse_port s)) [
  | inl e ↦ absurd (ground arith)
  | inr (p, e) ↦ elim (Option-cases (parse_each l)) [
    | inl x ↦ absurd (ground arith)
    | inr (qs, x) ↦
        subst AllInRange (some-injective (p ∷ qs) ps (ground arith))
          (parse_port-InRange s p e, parse_each-AllInRange l qs x)
  ]
]

-- The octets of a list of ports that is accepted are four for each entry, and read back they are the
-- bounds of each entry in order, a single port being a range of itself.
pub ports-read :
    (s : Text) (l : List Ports)
    → parse_flow_desc_ports s ≡ some l
    → (read_ports (encode_ports l) ≡ map bounds l) × (length (encode_ports l) ≡ 4 * length l)
unfolding parse_flow_desc_ports
ports-read s l h = read-encode_ports l (parse_each-AllInRange (split b',' s) l h)
