-- ===== src/Tunnel/Far.antt =====
-- The options of forwarding action rules: `ParseFAROptions` of
-- PacketRusher/internal/cmd/gogtp5g-tunnel/cmd_far.go.
use g_cn_testbed_k8s.Base.{ℕ, List, Text, codes, text_eq, if◌then◌else◌}
use g_cn_testbed_k8s.Tunnel.Attributes.{
  Attrs, end, attr, u8, u16, u32, bytes, string, nested, one, add, is_empty, far_apply_action,
  far_forwarding_parameter, forwarding_parameter_outer_header_creation,
  forwarding_parameter_forwarding_policy, outer_header_creation_description,
  outer_header_creation_o_teid, outer_header_creation_peer_addr_ipv4, outer_header_creation_port,
}
use g_cn_testbed_k8s.Tunnel.Parser.{
  CmdParser, Parsed, parsed, refused, unknown_option, Net, argument, number, ipv4, ◌>>=◌,
  parse_options,
}

-- What has been read: the attributes, and the forwarding parameters.
pub record FarOptions : Type 0 where
  pub attrs : Attrs
  pub paramv : Attrs

abbrev pub no_far_options : FarOptions
no_far_options = record { attrs = end; paramv = end }

-- The attribute of an outer header.
abbrev pub outer_header : (desc teid : ℕ) (peer : List ℕ) (port : ℕ) → Attrs
outer_header desc teid peer port = attr (u8 outer_header_creation_description desc) (
    attr (u32 outer_header_creation_o_teid teid) (
      attr (bytes outer_header_creation_peer_addr_ipv4 peer)
        (one (u16 outer_header_creation_port port))))

module _ (net : Net) where
  unfoldable pub far_action : Text → CmdParser → FarOptions → Parsed (CmdParser × FarOptions)
  unfolding number
  far_action opt p s = number 8 opt p >>= λ v.
      parsed (v.1, record s { attrs = add s.attrs (u16 far_apply_action v.0) })

  unfoldable pub far_hdr_creation : Text → CmdParser → FarOptions → Parsed (CmdParser × FarOptions)
  unfolding number ipv4
  far_hdr_creation opt p s = do
    (desc, p1) ← number 16 opt p
    (teid, p2) ← number 32 opt p1
    (addr, p3) ← ipv4 net opt p2
    (port, p4) ← number 16 opt p3
    parsed (
      p4,
      record s {
        paramv =
            add s.paramv (
              nested forwarding_parameter_outer_header_creation (outer_header desc teid addr port));
      },
    )

  unfoldable pub far_fwd_policy : Text → CmdParser → FarOptions → Parsed (CmdParser × FarOptions)
  unfolding argument
  far_fwd_policy opt p s = argument opt p >>= λ t.
      parsed (
        t.1,
        record s { paramv = add s.paramv (string forwarding_parameter_forwarding_policy t.0) },
      )

  -- The switch over the options.
  unfoldable pub far_step : Text → CmdParser → FarOptions → Parsed (CmdParser × FarOptions)
  unfolding far_action far_hdr_creation far_fwd_policy
  far_step opt p s =
      if text_eq opt (codes "--action")
      then far_action opt p s
      else if text_eq opt (codes "--hdr-creation")
      then far_hdr_creation opt p s
      else if text_eq opt (codes "--fwd-policy")
      then far_fwd_policy opt p s
      else refused (unknown_option opt)

  -- `ParseFAROptions`
  unfoldable pub parse_far_options : List Text → Parsed Attrs
  unfolding far_step
  parse_far_options args = parse_options far_step args no_far_options >>= λ s. parsed (
      if is_empty s.paramv then s.attrs else add s.attrs (nested far_forwarding_parameter s.paramv))
