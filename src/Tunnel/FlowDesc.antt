-- ===== src/Tunnel/FlowDesc.antt =====
-- Flow descriptions: `ParseFlowDesc`, `ParseFlowDescIPNet`, `ParseFlowDescPorts` and `EncodePorts` of
-- PacketRusher/internal/cmd/gogtp5g-tunnel/flowdesc.go. A `uint32` that is written through a pointer
-- has its octets in the order of the machine, the lowest first.
pub mod Encoding
pub mod Grammar
pub mod Finishing
use g_cn_testbed_k8s.Base.{
  ℕ, ◌+◌, ◌*◌, ◌/◌, ◌%◌, ◌^◌, Bool, true, false, ◌&&◌, ◌||◌, List, [], ◌∷◌, ◌++◌, Option, none,
  some, Text, codes, text_eq, ltb, leb, ◌==◌, if◌then◌else◌, length, replicate,
}
use g_cn_testbed_k8s.Strconv.{parse_uint, cut, split}
use g_cn_testbed_k8s.Tunnel.Attributes.{
  Attrs, end, attr, u8, bytes, one, append, flow_description_action, flow_description_direction,
  flow_description_protocol, flow_description_src_ipv4, flow_description_src_mask,
  flow_description_src_port, flow_description_dest_ipv4, flow_description_dest_mask,
  flow_description_dest_port,
}
use g_cn_testbed_k8s.Tunnel.Parser.{
  Parsed, parsed, refused, Refusal, too_few_fields, unknown_action, unknown_direction, no_from,
  no_to, bad_number, invalid_address, bad_ports, ◌>>=◌, or_refuse, Net, to4,
}

-- One port, or a range of them.
pub data Ports : Type 0 where
  port : ℕ → Ports
  range : (start last : ℕ) → Ports

-- What stands between two commas.
unfoldable pub parse_port : Text → Option Ports
parse_port s = elim (cut b'-' s) [
  | none ↦ elim (parse_uint 16 s) [ none ↦ none | some v ↦ some (port v) ]
  | some (before, after) ↦ elim (parse_uint 16 before) [
    | none ↦ none
    | some start ↦ elim (parse_uint 16 after) [ none ↦ none | some last ↦ some (range start last) ]
  ]
]

unfoldable pub parse_each : List Text → Option (List Ports)
unfolding parse_port
parse_each [] = some []
parse_each (s ∷ l) = elim (parse_port s) [
  | none ↦ none
  | some p ↦ elim (parse_each l) [ none ↦ none | some ps ↦ some (p ∷ ps) ]
]

-- `ParseFlowDescPorts`
unfoldable pub parse_flow_desc_ports : Text → Option (List Ports)
unfolding parse_each
parse_flow_desc_ports s = parse_each (split b',' s)

-- The four octets of a `uint32`, the lowest first.
abbrev pub octets : ℕ → List ℕ
octets v = (v % 256) ∷ (v / 256 % 256) ∷ (v / 65536 % 256) ∷ (v / 16777216 % 256) ∷ []

-- The number that stands for the ports; a port is a `uint16`, so the halves do not overlap.
abbrev pub port_word : Ports → ℕ
port_word (port p) = p * 65536 + p
port_word (range start last) = start * 65536 + last

-- `EncodePorts`
unfoldable pub encode_ports : List Ports → List ℕ
encode_ports [] = []
encode_ports (p ∷ l) = octets (port_word p) ++ encode_ports l

-- `net.CIDRMask(ones, bits)` where all the bits are ones or none.
abbrev pub full_mask : ℕ → List ℕ
full_mask n = replicate n 255

-- `ParseFlowDescIPNet`: an address and a mask.
unfoldable pub parse_flow_desc_ip_net : Net → Text → Option (List ℕ × List ℕ)
parse_flow_desc_ip_net net s =
    if text_eq s (codes "any")
    then some (replicate 16 0, replicate 16 0)
    else elim (net.parse_cidr s) [
      | some ip_net ↦ some ip_net
      | none ↦ elim (net.parse_ip s) [
        | none ↦ none
        | some ip ↦ elim (to4 ip) [
          | some v4 ↦ some (v4, full_mask (length v4))
          | none ↦ some (ip, full_mask (length ip))
        ]
      ]
    ]

abbrev is_space : ℕ → Bool
is_space c = c == 32 || (leb 9 c && leb c 13)

abbrev end_word : Text → List Text → List Text
end_word [] l = l
end_word (x ∷ word) l = (x ∷ word) ∷ l

pub fields_from : Text → Text → List Text
fields_from word [] = end_word word []
fields_from word (c ∷ s) =
    let cut_here = end_word word (fields_from [] s) in
    let longer = fields_from (word ++ c ∷ []) s in if is_space c then cut_here else longer

-- `strings.Fields` of an ASCII text.
unfoldable pub fields : Text → List Text
unfolding fields_from
fields s = fields_from [] s

-- The token at the position, if there is one, and the tokens behind it.
unfoldable pub next_field : List Text → Parsed (Text × List Text)
next_field [] = refused too_few_fields
next_field (t ∷ l) = parsed (t, l)

unfoldable pub parse_direction : Text → Parsed ℕ
parse_direction t =
    if text_eq t (codes "in")
    then parsed 1
    else if text_eq t (codes "out")
    then parsed 2
    else refused unknown_direction

unfoldable pub parse_protocol : Text → Parsed ℕ
parse_protocol t =
    if text_eq t (codes "ip") then parsed 255 else or_refuse (bad_number t) (parse_uint 8 t)

infixl 5 ◌>>◌
abbrev ◌>>◌ {ℓ} : {B : Type ℓ} → Parsed (Unit {0}) → Parsed B → Parsed B
check >> next = check >>= λ _. next

abbrev pub require : Bool → Refusal → Parsed (Unit {0})
require true why = parsed tt
require false why = refused why

-- The ports of the source, if the token is a list of ports: their attribute, and the tokens that
-- are left.
unfoldable pub source_ports : Text → List Text → Attrs × List Text
source_ports t l = elim (parse_flow_desc_ports t) [
  | none ↦ (end, t ∷ l)
  | some ports ↦ (one (bytes flow_description_src_port (encode_ports ports)), l)
]

-- The ports of the destination, if there is a token and it is a list of ports.
unfoldable pub destination_ports : List Text → Attrs
destination_ports [] = end
destination_ports (t ∷ l) = elim (parse_flow_desc_ports t) [
  | none ↦ end
  | some ports ↦ one (bytes flow_description_dest_port (encode_ports ports))
]

-- The action, the direction and the protocol: the two numbers, and the tokens that are left.
unfoldable pub flow_head : List Text → Parsed (ℕ × ℕ × List Text)
unfolding next_field parse_direction parse_protocol
flow_head l = do
  (action, l1) ← next_field l
  require (text_eq action (codes "permit")) unknown_action
  (direction, l2) ← next_field l1
  d ← parse_direction direction
  (protocol, l3) ← next_field l2
  p ← parse_protocol protocol
  parsed (d, p, l3)

-- A keyword, `from` or `to`, and the address behind it.
unfoldable pub flow_end : Net → Text → Refusal → List Text → Parsed ((List ℕ × List ℕ) × List Text)
unfolding next_field
flow_end net keyword why l = do
  (word, l1) ← next_field l
  require (text_eq word keyword) why
  (address, l2) ← next_field l1
  ip_net ← or_refuse (invalid_address address) (parse_flow_desc_ip_net net address)
  parsed (ip_net, l2)

-- `ParseFlowDesc`. What follows the ports of the destination is not looked at.
unfoldable pub parse_flow_desc : Net → Text → Parsed Attrs
unfolding fields next_field flow_head flow_end source_ports destination_ports
parse_flow_desc net s = do
  (d, p, l3) ← flow_head (fields s)
  (src, l5) ← flow_end net (codes "from") no_from l3
  (ports, l6) ← next_field l5
  let (sports, l7) = source_ports ports l6
  (dst, l9) ← flow_end net (codes "to") no_to l7
  parsed (
      attr (u8 flow_description_action 1) (
        attr (u8 flow_description_direction d) (
          attr (u8 flow_description_protocol p) (
            attr (bytes flow_description_src_ipv4 src.0) (
              attr (bytes flow_description_src_mask src.1) (
                append sports (
                  attr (bytes flow_description_dest_ipv4 dst.0)
                    (attr (bytes flow_description_dest_mask dst.1) (destination_ports l9)))))))))
