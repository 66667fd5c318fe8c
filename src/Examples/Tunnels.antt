-- ===== src/Examples/Tunnels.antt =====
-- Examples for the gtp5g tunnel tool.
use g_cn_testbed_k8s.Base.{
  ℕ, ◌+◌, ◌*◌, ◌^◌, ◌<◌, ◌≤◌, ◌≡◌, ◌⊎◌, refl, true, false, List, [], ◌∷◌, ◌++◌, none, some, Text,
  codes, arith, text_eq, length, replicate,
}
use g_cn_testbed_k8s.Strconv.{parse_uint, parse_uint_any, cut, split}
use g_cn_testbed_k8s.Tunnel.Attributes
use g_cn_testbed_k8s.Tunnel.Attributes.{Attrs, num, qer_mbr_ul_high32, qer_mbr_ul_low8}
use g_cn_testbed_k8s.Tunnel.Parser.{
  Net, Parsed, parsed, refused, out_of_fuel, CmdParser, parse_options, get_token, new_cmd_parser,
}
use g_cn_testbed_k8s.Tunnel.Parser.Rounds.{Ends}
use g_cn_testbed_k8s.Tunnel.Oid.{parse_oid, parse_oid-print}
use g_cn_testbed_k8s.Tunnel.Far.{parse_far_options}
use g_cn_testbed_k8s.Tunnel.FlowDesc.{
  parse_flow_desc, fields, parse_flow_desc_ip_net, parse_flow_desc_ports, encode_ports, port, range,
}
use g_cn_testbed_k8s.Tunnel.FlowDesc.Encoding.{ports-read, read_ports}
use g_cn_testbed_k8s.Tunnel.FlowDesc.Grammar.{flow-fields, IsProtocol, IsPorts}
use g_cn_testbed_k8s.Tunnel.Qer.{QerOptions, qer_mbr_option, no_qer_options}
use g_cn_testbed_k8s.Tunnel.Qer.Rates.{mbr_option-parts}
use g_cn_testbed_k8s.Tunnel.Commands.{Kernel, far}
use g_cn_testbed_k8s.Tunnel.Commands.Resources.{IsClosed}
use g_cn_testbed_k8s.Tunnel.Commands.Termination.{options_of, options_of-Ends}
use g_cn_testbed_k8s.Tunnel.Tree.{Verb, call}
use g_cn_testbed_k8s.Tunnel.Tree.Calls.{Sends, call-IsClosed, call-Sends}

-- Every address is 10.0.0.1, and every network the one that has it.
abbrev net : Net
net = record {
  parse_ip = λ s. some (replicate 10 0 ++ 255 ∷ 255 ∷ 10 ∷ 0 ∷ 0 ∷ 1 ∷ []);
  parse_cidr = λ s. some (10 ∷ 0 ∷ 0 ∷ 0 ∷ [], 255 ∷ 0 ∷ 0 ∷ 0 ∷ []);
}

-- A kernel that accepts everything, and one whose connection fails.
abbrev willing : Kernel
willing = record {
  new_mux = true;
  open_conn = true;
  new_client = true;
  get_link = λ s. some 3;
  send = λ r. some 7;
  marshals = λ v. true;
}

abbrev deaf : Kernel
deaf = record willing { open_conn = false }

abbrev far_args : List Text
far_args = codes "upfgtp" ∷ codes "1:7" ∷ codes "--action" ∷ codes "2" ∷ []

call-IsClosed_example : IsClosed (call deaf net (record { verb = Verb.add; object = far }) far_args)
call-IsClosed_example = call-IsClosed deaf net (record { verb = Verb.add; object = far }) far_args

options_of-Ends_example : Ends (λ _. Unit) (options_of net far (codes "--action" ∷ codes "2" ∷ []))
options_of-Ends_example = options_of-Ends net far (codes "--action" ∷ codes "2" ∷ [])

far_added : (call willing net (record { verb = Verb.add; object = far }) far_args).failure ≡ none
unfolding call parse_oid cut parse_uint parse_far_options parse_options text_eq parse_uint_any
far_added = refl

call-Sends_example :
    Sends willing net far far_args
      (call willing net (record { verb = Verb.add; object = far }) far_args)
call-Sends_example = call-Sends willing net far far_args far_added

parse_oid-print_example :
    (parse_oid (codes "42") ≡ some (42 ∷ [])) × (parse_oid (codes "7:42") ≡ some (7 ∷ 42 ∷ []))
parse_oid-print_example =
    parse_oid-print 7 4 [] (2 ∷ []) (omega arith, tt) (omega arith, (omega arith, tt))

some_ports : parse_flow_desc_ports (codes "80,100-200") ≡ some (port 80 ∷ range 100 200 ∷ [])
unfolding parse_flow_desc_ports split cut parse_uint
some_ports = refl

ports-read_example :
    (read_ports (encode_ports (port 80 ∷ range 100 200 ∷ [])) ≡ (80, 80) ∷ (100, 200) ∷ [])
    × (length (encode_ports (port 80 ∷ range 100 200 ∷ [])) ≡ 8)
ports-read_example = ports-read (codes "80,100-200") (port 80 ∷ range 100 200 ∷ []) some_ports

abbrev flow : Text
flow = codes "permit out 17 from 10.0.0.0/8 80 to any 53"

abbrev parsed_or : Attrs → Parsed Attrs → Attrs
parsed_or d (parsed a) = a
parsed_or d (refused why) = d
parsed_or d out_of_fuel = d

flow_read : parse_flow_desc net flow ≡ parsed (parsed_or Attrs.end (parse_flow_desc net flow))
unfolding parse_flow_desc fields text_eq parse_uint parse_flow_desc_ip_net parse_flow_desc_ports
    split cut
flow_read = refl

flow-fields_example :
    (direction : Text) × (protocol : Text) × (source : Text) × (destination : Text) × (ports : List
      Text)
    × (rest : List Text) × (src : List ℕ × List ℕ) × (dst : List ℕ × List ℕ) × (fields flow
        ≡ codes "permit"
          ∷ direction
          ∷ protocol
          ∷ codes "from"
          ∷ source
          ∷ (ports ++ codes "to" ∷ destination ∷ rest))
    × ((direction ≡ codes "in") ⊎ (direction ≡ codes "out"))
    × IsProtocol protocol
    × IsPorts ports
    × (length ports ≤ 1)
    × (parse_flow_desc_ip_net net source ≡ some src)
    × (parse_flow_desc_ip_net net destination ≡ some dst)
flow-fields_example = flow-fields net flow _ flow_read

abbrev rate_parser : CmdParser
rate_parser = new_cmd_parser (codes "1000" ∷ [])

abbrev rated : QerOptions
rated = record no_qer_options {
  mbrv =
      Attributes.add (Attributes.add no_qer_options.mbrv (num 32 qer_mbr_ul_high32 3))
        (num 8 qer_mbr_ul_low8 232);
}

rate_read :
    qer_mbr_option qer_mbr_ul_high32 qer_mbr_ul_low8 (codes "--mbr-ul") rate_parser no_qer_options
    ≡ parsed (record rate_parser { pos = 1 }, rated)
unfolding qer_mbr_option parse_uint_any
rate_read = refl

mbr_option-parts_example :
    (arg : Text) × (v : ℕ) × (a : ℕ) × (b : ℕ) × (get_token rate_parser
      ≡ some (arg, record rate_parser { pos = 1 }))
    × (parse_uint_any 40 arg ≡ some v)
    × (rated ≡ record no_qer_options {
      mbrv =
          Attributes.add
            (Attributes.add no_qer_options.mbrv (num 32 qer_mbr_ul_high32 a))
            (num 8 qer_mbr_ul_low8 b);
    })
    × (a * 2 ^ 8 + b ≡ v)
    × (a < 2 ^ 32)
    × (b < 2 ^ 8)
mbr_option-parts_example =
    mbr_option-parts qer_mbr_ul_high32 qer_mbr_ul_low8 (codes "--mbr-ul") rate_parser
      (record rate_parser { pos = 1 }) no_qer_options rated rate_read
