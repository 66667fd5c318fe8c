-- ===== src/Tunnel/FlowDesc/Grammar.antt =====
-- Which flow descriptions are accepted.
use g_cn_testbed_k8s.Base.{
  ℕ, ◌≤◌, ◌≡◌, ◌⊎◌, ◌∙◌, ap, refl, Bool, Bool-cases, Option-cases, inl, inr, true, false, List, [],
  ◌∷◌, ◌++◌, Option, none, some, Text, codes, text_eq, text_eq_iff, arith, length,
}
use g_cn_testbed_k8s.Strconv.{parse_uint}
use g_cn_testbed_k8s.Tunnel.Attributes.{Attrs}
use g_cn_testbed_k8s.Tunnel.Parser.{
  Parsed, parsed, refused, out_of_fuel, Refusal, bad_number, ◌>>=◌, or_refuse, Net,
}
use g_cn_testbed_k8s.Tunnel.FlowDesc.{
  parse_flow_desc, fields, next_field, flow_head, Ports, flow_end, require, parse_direction,
  parse_protocol, source_ports, parse_flow_desc_ip_net, parse_flow_desc_ports,
}

>>=-eq-parsed {ℓ κ} :
    {A : Type ℓ} {B : Type κ} (m : Parsed A) (next : A → Parsed B) {b : B}
    → (m >>= next) ≡ parsed b
    → (a : A) × (m ≡ parsed a) × (next a ≡ parsed b)
>>=-eq-parsed (refused why) next h = cc
>>=-eq-parsed out_of_fuel next h = cc
>>=-eq-parsed (parsed a) next h = (a, refl, h)

cons-eq {ℓ} : {A : Type ℓ} {a b : A} {l m : List A} → a ≡ b → l ≡ m → a ∷ l ≡ b ∷ m
cons-eq p q = λ i. p i ∷ q i

next_field-eq-parsed :
    (l rest : List Text) (t : Text) → next_field l ≡ parsed (t, rest) → l ≡ t ∷ rest
unfolding next_field
next_field-eq-parsed [] rest t h = absurd (ground arith)
next_field-eq-parsed (x ∷ l) rest t h = ground arith

require-eq-parsed : (b : Bool) (why : Refusal) → require b why ≡ parsed tt → b ≡ true
require-eq-parsed true why h = refl
require-eq-parsed false why h = cc

or_refuse-eq-parsed {ℓ} :
    {A : Type ℓ} (why : Refusal) (o : Option A) (a : A) → or_refuse why o ≡ parsed a → o ≡ some a
or_refuse-eq-parsed why none a h = cc
or_refuse-eq-parsed why (some b) a h = cc

direction-eq-parsed :
    (t : Text) (d : ℕ) → parse_direction t ≡ parsed d → (t ≡ codes "in") ⊎ (t ≡ codes "out")
unfolding parse_direction
direction-eq-parsed t d h = elim (Bool-cases (text_eq t (codes "in"))) [
  | inl e ↦ inl ((text_eq_iff t (codes "in")).0 e)
  | inr e ↦ elim (Bool-cases (text_eq t (codes "out"))) [
    | inl f ↦ inr ((text_eq_iff t (codes "out")).0 f)
    | inr f ↦ absurd (ground arith)
  ]
]

-- `ip`, or a number of eight bits.
abbrev pub IsProtocol : Text → Type 0
IsProtocol t = (t ≡ codes "ip") ⊎ ((v : ℕ) × (parse_uint 8 t ≡ some v))

parse_protocol-IsProtocol : (t : Text) (v : ℕ) → parse_protocol t ≡ parsed v → IsProtocol t
unfolding parse_protocol
parse_protocol-IsProtocol t v h = elim (Bool-cases (text_eq t (codes "ip"))) [
  | inl e ↦ inl ((text_eq_iff t (codes "ip")).0 e)
  | inr e ↦ inr (v, or_refuse-eq-parsed (bad_number t) (parse_uint 8 t) v (rw e at h))
]

-- No token, or one that is a list of ports.
abbrev pub IsPorts : List Text → Type 0
IsPorts l =
    (l ≡ []) ⊎ ((t : Text) × (ps : List Ports) × (l ≡ t ∷ []) × (parse_flow_desc_ports t ≡ some ps))

source_ports-append :
    (t : Text) (l : List Text)
    → (ports : List Text) × (t ∷ l ≡ ports ++ (source_ports t l).1) × IsPorts ports
unfolding source_ports
source_ports-append t l = elim (Option-cases (parse_flow_desc_ports t)) [
  | inl e ↦ ([], ground arith, inl refl)
  | inr (ps, e) ↦ (t ∷ [], ground arith, inr (t, ps, refl, e))
]

ports-short : (l : List Text) → IsPorts l → length l ≤ 1
ports-short l (inl e) = ground arith
ports-short l (inr (t, ps, e, h)) = ground arith

head-fields :
    (l rest : List Text) (d p : ℕ)
    → flow_head l ≡ parsed (d, p, rest)
    → (direction : Text) × (protocol : Text) × (l ≡ codes "permit" ∷ direction ∷ protocol ∷ rest)
      × ((direction ≡ codes "in") ⊎ (direction ≡ codes "out"))
      × IsProtocol protocol
unfolding flow_head
head-fields l rest d p h =
    let ((a, l1), e1, h1) = >>=-eq-parsed (next_field l) _ h in
    let (_, e2, h2) = >>=-eq-parsed (require (text_eq a (codes "permit")) _) _ h1 in
    let ((dir, l2), e3, h3) = >>=-eq-parsed (next_field l1) _ h2 in
    let (dv, e4, h4) = >>=-eq-parsed (parse_direction dir) _ h3 in
    let ((proto, l3), e5, h5) = >>=-eq-parsed (next_field l2) _ h4 in
    let (pv, e6, h6) = >>=-eq-parsed (parse_protocol proto) _ h5 in
    let permit = (text_eq_iff a (codes "permit")).0 (require-eq-parsed _ _ e2) in
    let end : l3 ≡ rest = cc h6 in
    (
      dir,
      proto,
      next_field-eq-parsed l l1 a e1
          ∙ cons-eq permit (
              next_field-eq-parsed l1 l2 dir e3
              ∙ cons-eq refl (next_field-eq-parsed l2 l3 proto e5 ∙ cons-eq refl end)),
      direction-eq-parsed dir dv e4,
      parse_protocol-IsProtocol proto pv e6,
    )

end-fields :
    (net : Net) (keyword : Text) (why : Refusal) (l rest : List Text) (ip : List ℕ × List ℕ)
    → flow_end net keyword why l ≡ parsed (ip, rest)
    → (address : Text) × (l ≡ keyword ∷ address ∷ rest)
      × (parse_flow_desc_ip_net net address ≡ some ip)
unfolding flow_end
end-fields net keyword why l rest ip h =
    let ((w, l1), e1, h1) = >>=-eq-parsed (next_field l) _ h in
    let (_, e2, h2) = >>=-eq-parsed (require (text_eq w keyword) _) _ h1 in
    let ((address, l2), e3, h3) = >>=-eq-parsed (next_field l1) _ h2 in
    let (found, e4, h4) = >>=-eq-parsed (or_refuse _ (parse_flow_desc_ip_net net address)) _ h3 in
    let end : l2 ≡ rest = cc h4 in
    let same : found ≡ ip = cc h4 in
    (
      address,
      next_field-eq-parsed l l1 w e1
          ∙ cons-eq ((text_eq_iff w keyword).0 (require-eq-parsed _ _ e2))
              (next_field-eq-parsed l1 l2 address e3 ∙ cons-eq refl end),
      or_refuse-eq-parsed _ _ found e4 ∙ ap some same,
    )

-- The fields of a flow description that is accepted are `permit`, `in` or `out`, a protocol, which is
-- `ip` or a number of eight bits, `from` with an address, at most one token, which is a list of ports,
-- and `to` with an address; what stands behind them is not checked. So `deny` is refused, although the
-- grammar above the function has it.
pub flow-fields :
    (net : Net) (s : Text) (attrs : Attrs)
    → parse_flow_desc net s ≡ parsed attrs
    → (direction : Text) × (protocol : Text) × (source : Text) × (destination : Text)
      × (ports : List Text) × (rest : List Text) × (src : List ℕ × List ℕ) × (dst : List ℕ × List ℕ)
      × (fields s
          ≡ codes "permit"
            ∷ direction
            ∷ protocol
            ∷ codes "from"
            ∷ source
            ∷ (ports ++ codes "to" ∷ destination ∷ rest))
      × ((direction ≡ codes "in") ⊎ (direction ≡ codes "out"))
      × IsProtocol protocol
      × IsPorts ports
      × (length ports ≤ 1)
      × (parse_flow_desc_ip_net net source ≡ some src)
      × (parse_flow_desc_ip_net net destination ≡ some dst)
unfolding parse_flow_desc
flow-fields net s attrs h =
    let ((d, p, l3), e1, h1) = >>=-eq-parsed (flow_head (fields s)) _ h in
    let ((src, l5), e2, h2) = >>=-eq-parsed (flow_end net (codes "from") _ l3) _ h1 in
    let ((po, l6), e3, h3) = >>=-eq-parsed (next_field l5) _ h2 in
    let ((dst, l9), e4, h4) =
      >>=-eq-parsed (flow_end net (codes "to") _ (source_ports po l6).1) _ h3 in
    let (direction, protocol, f, way, known_protocol) = head-fields (fields s) l3 d p e1 in
    let (source, g, found) = end-fields net (codes "from") _ l3 l5 src e2 in
    let (destination, k, known) = end-fields net (codes "to") _ (source_ports po l6).1 l9 dst e4 in
    let (ports, split, are_ports) = source_ports-append po l6 in
    (
      direction,
      protocol,
      source,
      destination,
      ports,
      l9,
      src,
      dst,
      f
          ∙ cons-eq refl (
              cons-eq refl (
                cons-eq refl (
                  g
                  ∙ cons-eq refl (
                      cons-eq refl (
                        next_field-eq-parsed l5 l6 po e3
                        ∙ split
                        ∙ ap (λ (l : List Text). ports ++ l) k))))),
      way,
      known_protocol,
      are_ports,
      ports-short ports are_ports,
      found,
      known,
    )
