-- ===== src/Tunnel/Commands/Termination.antt =====
-- The option parsers of the tool need no fuel that they do not have.
use g_cn_testbed_k8s.Base.{◌≤◌, Bool, true, false, List, Text, arith, if◌then◌else◌}
use g_cn_testbed_k8s.Tunnel.Attributes.{AttrType, Attrs}
use g_cn_testbed_k8s.Tunnel.Parser.{
  Parsed, parsed, refused, out_of_fuel, Refusal, or_refuse, CmdParser, left, Net, argument, number,
  ipv4, ◌>>=◌,
}
use g_cn_testbed_k8s.Tunnel.Parser.Rounds.{
  Ends, Ends-bind, or_refuse-Ends, Leaves, argument-Ends, number-Ends, ipv4-Ends, options-Ends,
}
use g_cn_testbed_k8s.Tunnel.Far.{
  FarOptions, far_action, far_hdr_creation, far_fwd_policy, far_step, no_far_options,
  parse_far_options,
}
use g_cn_testbed_k8s.Tunnel.Qer.{
  QerOptions, qer_step, qer_mbr_option, qer_gbr_option, qer_u8_option, qer_corr_option,
  no_qer_options, parse_qer_options,
}
use g_cn_testbed_k8s.Tunnel.Pdr.{
  PdrOptions, pdr_step, pdr_u32, pdr_hdr_rm, sdf_u32, sdf_tos, pdr_source_interface,
  interface_number, pdr_usock_path, pdr_ue_ipv4, pdr_f_teid, pdr_sdf_desp, pdr_gtpu_src_ip,
  no_pdr_options, parse_pdr_options,
}
use g_cn_testbed_k8s.Tunnel.FlowDesc.Finishing.{flow-Finishes}
use g_cn_testbed_k8s.Tunnel.FlowDesc.{parse_flow_desc}
use g_cn_testbed_k8s.Tunnel.Commands.{Object, pdr, far, qer, urr, parse_urr_options}

-- The parser of an object's options.
abbrev pub options_of : Net → Object → List Text → Parsed Attrs
options_of net pdr = parse_pdr_options net
options_of net far = parse_far_options net
options_of net qer = parse_qer_options
options_of net urr = parse_urr_options

-- A case that ends and gives back no token.
record Steps {ℓ} {S : Type ℓ} (p : CmdParser) (r : Parsed (CmdParser × S)) : Type 0 where
  ends : Ends (λ t. left t.0 ≤ left p) r

-- A case that reads one argument.
one-Steps {ℓ} :
    {A S : Type ℓ} (p : CmdParser) (m : Parsed (A × CmdParser)) (k : A × CmdParser → S)
    → Ends (Leaves (left p)) m
    → Steps p (m >>= λ t. parsed (t.1, k t))
one-Steps p (parsed t) k h = record { ends = h }
one-Steps p (refused why) k h = record { ends = tt }
one-Steps p out_of_fuel k h = record { ends = h }

unknown-Steps {ℓ} : {S : Type ℓ} (p : CmdParser) (why : Refusal) → Steps {S = S} p (refused why)
unknown-Steps p why = record { ends = tt }

if-Steps {ℓ} :
    {S : Type ℓ} (p : CmdParser) (c : Bool) (x y : Parsed (CmdParser × S))
    → Steps p x
    → Steps p y
    → Steps p (if c then x else y)
if-Steps p true x y h k = h
if-Steps p false x y h k = k

module _ (net : Net) where
  far_hdr-Steps :
      (opt : Text) (p : CmdParser) (s : FarOptions) → Steps p (far_hdr_creation net opt p s)
  unfolding far_hdr_creation
  far_hdr-Steps opt p s = record {
    ends = Ends-bind (Leaves (left p)) _ (number 16 opt p) _ (number-Ends 16 opt p) λ d h.
        Ends-bind (Leaves (left d.1)) _ (number 32 opt d.1) _ (number-Ends 32 opt d.1) λ t h1.
          Ends-bind (Leaves (left t.1)) _ (ipv4 net opt t.1) _ (ipv4-Ends net opt t.1) λ a h2.
            Ends-bind (Leaves (left a.1)) _ (number 16 opt a.1) _ (number-Ends 16 opt a.1)
              λ q h3. omega arith;
  }

  ue_ipv4-Steps : (opt : Text) (p : CmdParser) (s : PdrOptions) → Steps p (pdr_ue_ipv4 net opt p s)
  unfolding pdr_ue_ipv4
  ue_ipv4-Steps opt p s = one-Steps p (ipv4 net opt p) _ (ipv4-Ends net opt p)

  src_ip-Steps :
      (opt : Text) (p : CmdParser) (s : PdrOptions) → Steps p (pdr_gtpu_src_ip net opt p s)
  unfolding pdr_gtpu_src_ip
  src_ip-Steps opt p s = one-Steps p (ipv4 net opt p) _ (ipv4-Ends net opt p)

  f_teid-Steps : (opt : Text) (p : CmdParser) (s : PdrOptions) → Steps p (pdr_f_teid net opt p s)
  unfolding pdr_f_teid
  f_teid-Steps opt p s = record {
    ends = Ends-bind (Leaves (left p)) _ (number 32 opt p) _ (number-Ends 32 opt p) λ t h.
        Ends-bind (Leaves (left t.1)) _ (ipv4 net opt t.1) _ (ipv4-Ends net opt t.1)
          λ a k. omega arith;
  }

  desp-Steps : (opt : Text) (p : CmdParser) (s : PdrOptions) → Steps p (pdr_sdf_desp net opt p s)
  unfolding pdr_sdf_desp
  desp-Steps opt p s = record {
    ends = Ends-bind (Leaves (left p)) _ (argument opt p) _ (argument-Ends opt p) λ t h.
        Ends-bind (λ _. Unit) _ (parse_flow_desc net t.0) _ (flow-Finishes net t.0).ends λ fd _. h;
  }

u32-Steps :
    (t : AttrType) (opt : Text) (p : CmdParser) (s : PdrOptions) → Steps p (pdr_u32 t opt p s)
unfolding pdr_u32
u32-Steps t opt p s = one-Steps p (number 32 opt p) _ (number-Ends 32 opt p)

hdr_rm-Steps : (opt : Text) (p : CmdParser) (s : PdrOptions) → Steps p (pdr_hdr_rm opt p s)
unfolding pdr_hdr_rm
hdr_rm-Steps opt p s = one-Steps p (number 8 opt p) _ (number-Ends 8 opt p)

sdf-Steps :
    (t : AttrType) (opt : Text) (p : CmdParser) (s : PdrOptions) → Steps p (sdf_u32 t opt p s)
unfolding sdf_u32
sdf-Steps t opt p s = one-Steps p (number 32 opt p) _ (number-Ends 32 opt p)

tos-Steps : (opt : Text) (p : CmdParser) (s : PdrOptions) → Steps p (sdf_tos opt p s)
unfolding sdf_tos
tos-Steps opt p s = one-Steps p (number 16 opt p) _ (number-Ends 16 opt p)

path-Steps : (opt : Text) (p : CmdParser) (s : PdrOptions) → Steps p (pdr_usock_path opt p s)
unfolding pdr_usock_path
path-Steps opt p s = one-Steps p (argument opt p) _ (argument-Ends opt p)

interface-Steps :
    (opt : Text) (p : CmdParser) (s : PdrOptions) → Steps p (pdr_source_interface opt p s)
unfolding pdr_source_interface
interface-Steps opt p s = record {
  ends = Ends-bind (Leaves (left p)) _ (argument opt p) _ (argument-Ends opt p) λ t h.
      Ends-bind (λ _. Unit) _ (or_refuse _ (interface_number t.0)) _
        (or_refuse-Ends _ (interface_number t.0)) λ v _. h;
}

action-Steps :
    (net : Net) (opt : Text) (p : CmdParser) (s : FarOptions) → Steps p (far_action net opt p s)
unfolding far_action
action-Steps net opt p s = one-Steps p (number 8 opt p) _ (number-Ends 8 opt p)

policy-Steps :
    (net : Net) (opt : Text) (p : CmdParser) (s : FarOptions) → Steps p (far_fwd_policy net opt p s)
unfolding far_fwd_policy
policy-Steps net opt p s = one-Steps p (argument opt p) _ (argument-Ends opt p)

far-Steps :
    (net : Net) (opt : Text) (p : CmdParser) (s : FarOptions) → Steps p (far_step net opt p s)
unfolding far_step
far-Steps net opt p s =
    search (if-Steps, action-Steps, far_hdr-Steps net, policy-Steps, unknown-Steps)

mbr-Steps :
    (h l : AttrType) (opt : Text) (p : CmdParser) (s : QerOptions)
    → Steps p (qer_mbr_option h l opt p s)
unfolding qer_mbr_option
mbr-Steps h l opt p s = one-Steps p (number 40 opt p) _ (number-Ends 40 opt p)

gbr-Steps :
    (h l : AttrType) (opt : Text) (p : CmdParser) (s : QerOptions)
    → Steps p (qer_gbr_option h l opt p s)
unfolding qer_gbr_option
gbr-Steps h l opt p s = one-Steps p (number 40 opt p) _ (number-Ends 40 opt p)

u8-Steps :
    (t : AttrType) (opt : Text) (p : CmdParser) (s : QerOptions) → Steps p (qer_u8_option t opt p s)
unfolding qer_u8_option
u8-Steps t opt p s = one-Steps p (number 8 opt p) _ (number-Ends 8 opt p)

corr-Steps : (opt : Text) (p : CmdParser) (s : QerOptions) → Steps p (qer_corr_option opt p s)
unfolding qer_corr_option
corr-Steps opt p s = one-Steps p (number 32 opt p) _ (number-Ends 32 opt p)

qer-Steps : (opt : Text) (p : CmdParser) (s : QerOptions) → Steps p (qer_step opt p s)
unfolding qer_step
qer-Steps opt p s =
    search (if-Steps, mbr-Steps, gbr-Steps, u8-Steps, corr-Steps, unknown-Steps) depth 60 fits 2000

pdr-Steps :
    (net : Net) (opt : Text) (p : CmdParser) (s : PdrOptions) → Steps p (pdr_step net opt p s)
unfolding pdr_step
pdr-Steps net opt p s =
    search
      (
        if-Steps,
        u32-Steps,
        hdr_rm-Steps,
        sdf-Steps,
        tos-Steps,
        path-Steps,
        interface-Steps,
        ue_ipv4-Steps net,
        f_teid-Steps net,
        src_ip-Steps net,
        desp-Steps net,
        unknown-Steps,
      )
      depth 60 fits 2000

urr-Ends : (args : List Text) → Ends (λ _. Unit) (parse_urr_options args)
unfolding parse_urr_options
urr-Ends args = options-Ends _ (λ opt p s. omega arith) args Attrs.end

-- The option parsers of all four objects end for all arguments within a round for each argument and
-- one more: they read the options or refuse them, and never run out of rounds.
pub options_of-Ends :
    (net : Net) (o : Object) (args : List Text) → Ends (λ _. Unit) (options_of net o args)
unfolding parse_far_options parse_pdr_options parse_qer_options
options_of-Ends net pdr args =
    Ends-bind (λ _. Unit) (λ _. Unit) _ _
      (options-Ends (pdr_step net) (λ opt p s. (pdr-Steps net opt p s).ends) args no_pdr_options)
      λ s _. tt
options_of-Ends net far args =
    Ends-bind (λ _. Unit) (λ _. Unit) _ _
      (options-Ends (far_step net) (λ opt p s. (far-Steps net opt p s).ends) args no_far_options)
      λ s _. tt
options_of-Ends net qer args =
    Ends-bind (λ _. Unit) (λ _. Unit) _ _
      (options-Ends qer_step (λ opt p s. (qer-Steps opt p s).ends) args no_qer_options) λ s _. tt
options_of-Ends net urr args = urr-Ends args
