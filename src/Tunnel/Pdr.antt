-- ===== src/Tunnel/Pdr.antt =====
-- The options of packet detection rules: `ParsePDROptions` of
-- PacketRusher/internal/cmd/gogtp5g-tunnel/cmd_pdr.go.
use g_cn_testbed_k8s.Base.{
  ℕ, not, ◌||◌, ◌&&◌, List, Option, none, some, Text, codes, text_eq, if◌then◌else◌, ◌==◌,
}
use g_cn_testbed_k8s.Strconv.{atoi}
use g_cn_testbed_k8s.Tunnel.Attributes.{
  AttrType, Attrs, end, attr, u8, u16, u32, bytes, string, nested, one, add, is_empty,
  pdr_precedence, pdr_outer_header_removal, pdr_far_id, pdr_qer_id, pdr_role_addr_ipv4,
  pdr_unix_socket_path, pdr_pdi, pdi_ue_addr_ipv4, pdi_src_intf, pdi_f_teid, pdi_sdf_filter,
  f_teid_i_teid, f_teid_gtpu_addr_ipv4, sdf_filter_flow_description, sdf_filter_tos_traffic_class,
  sdf_filter_security_parameter_index, sdf_filter_flow_label, sdf_filter_sdf_filter_id,
}
use g_cn_testbed_k8s.Tunnel.Parser.{
  CmdParser, Parsed, parsed, refused, unknown_option, bad_interface, Net, argument, number, ipv4,
  or_refuse, ◌>>=◌, parse_options,
}
use g_cn_testbed_k8s.Tunnel.FlowDesc.{parse_flow_desc}

-- What has been read: the attributes, the packet detection information, and its filter.
pub record PdrOptions : Type 0 where
  pub attrs : Attrs
  pub pdiv : Attrs
  pub sdfv : Attrs

abbrev pub no_pdr_options : PdrOptions
no_pdr_options = record { attrs = end; pdiv = end; sdfv = end }

abbrev pub Case : Type 0
Case = Text → CmdParser → PdrOptions → Parsed (CmdParser × PdrOptions)

unfoldable pub pdr_u32 : AttrType → Case
unfolding number
pdr_u32 t opt p s =
    number 32 opt p >>= λ v. parsed (v.1, record s { attrs = add s.attrs (u32 t v.0) })

unfoldable pub pdr_hdr_rm : Case
unfolding number
pdr_hdr_rm opt p s = number 8 opt p >>= λ v.
    parsed (v.1, record s { attrs = add s.attrs (u8 pdr_outer_header_removal v.0) })

unfoldable pub sdf_u32 : AttrType → Case
unfolding number
sdf_u32 t opt p s =
    number 32 opt p >>= λ v. parsed (v.1, record s { sdfv = add s.sdfv (u32 t v.0) })

unfoldable pub sdf_tos : Case
unfolding number
sdf_tos opt p s = number 16 opt p >>= λ v.
    parsed (v.1, record s { sdfv = add s.sdfv (u16 sdf_filter_tos_traffic_class v.0) })

-- `v != 0 && v != 1` of the number that `Atoi` read; minus zero is zero.
unfoldable pub interface_number : Text → Option ℕ
interface_number arg = elim (atoi arg) [
  | none ↦ none
  | some (negative, n) ↦ if n == 0 || (not negative && n == 1) then some n else none
]

unfoldable pub pdr_source_interface : Case
unfolding argument interface_number
pdr_source_interface opt p s = argument opt p >>= λ t.
    or_refuse (bad_interface t.0) (interface_number t.0) >>= λ v.
    parsed (t.1, record s { pdiv = add s.pdiv (u8 pdi_src_intf v) })

unfoldable pub pdr_usock_path : Case
unfolding argument
pdr_usock_path opt p s = argument opt p >>= λ t.
    parsed (t.1, record s { attrs = add s.attrs (string pdr_unix_socket_path t.0) })

module _ (net : Net) where
  unfoldable pub pdr_ue_ipv4 : Case
  unfolding ipv4
  pdr_ue_ipv4 opt p s = ipv4 net opt p >>= λ v.
      parsed (v.1, record s { pdiv = add s.pdiv (bytes pdi_ue_addr_ipv4 v.0) })

  unfoldable pub pdr_f_teid : Case
  unfolding number ipv4
  pdr_f_teid opt p s = number 32 opt p >>= λ teid. ipv4 net opt teid.1 >>= λ addr. parsed (
    addr.1,
    record s {
      pdiv = add s.pdiv (
          nested pdi_f_teid
            (attr (u32 f_teid_i_teid teid.0) (one (bytes f_teid_gtpu_addr_ipv4 addr.0))));
    },
  )

  unfoldable pub pdr_sdf_desp : Case
  unfolding argument
  pdr_sdf_desp opt p s = argument opt p >>= λ t. parse_flow_desc net t.0 >>= λ fd.
      parsed (t.1, record s { sdfv = add s.sdfv (nested sdf_filter_flow_description fd) })

  unfoldable pub pdr_gtpu_src_ip : Case
  unfolding ipv4
  pdr_gtpu_src_ip opt p s = ipv4 net opt p >>= λ v.
      parsed (v.1, record s { attrs = add s.attrs (bytes pdr_role_addr_ipv4 v.0) })

  -- The switch over the options.
  unfoldable pub pdr_step : Case
  unfolding pdr_u32 pdr_hdr_rm sdf_u32 sdf_tos pdr_source_interface pdr_usock_path pdr_ue_ipv4
      pdr_f_teid pdr_sdf_desp pdr_gtpu_src_ip
  pdr_step opt p s =
      if text_eq opt (codes "--pcd")
      then pdr_u32 pdr_precedence opt p s
      else if text_eq opt (codes "--hdr-rm")
      then pdr_hdr_rm opt p s
      else if text_eq opt (codes "--far-id")
      then pdr_u32 pdr_far_id opt p s
      else if text_eq opt (codes "--ue-ipv4")
      then pdr_ue_ipv4 opt p s
      else if text_eq opt (codes "--source-interface")
      then pdr_source_interface opt p s
      else if text_eq opt (codes "--f-teid")
      then pdr_f_teid opt p s
      else if text_eq opt (codes "--sdf-desp")
      then pdr_sdf_desp opt p s
      else if text_eq opt (codes "--sdf-tos-traff-cls")
      then sdf_tos opt p s
      else if text_eq opt (codes "--sdf-scy-param-idx")
      then sdf_u32 sdf_filter_security_parameter_index opt p s
      else if text_eq opt (codes "--sdf-flow-label")
      then sdf_u32 sdf_filter_flow_label opt p s
      else if text_eq opt (codes "--sdf-id")
      then sdf_u32 sdf_filter_sdf_filter_id opt p s
      else if text_eq opt (codes "--qer-id")
      then pdr_u32 pdr_qer_id opt p s
      else if text_eq opt (codes "--gtpu-src-ip")
      then pdr_gtpu_src_ip opt p s
      else if text_eq opt (codes "--buffer-usock-path")
      then pdr_usock_path opt p s
      else refused (unknown_option opt)

  abbrev pub with_filter : PdrOptions → Attrs
  with_filter s = if is_empty s.sdfv then s.pdiv else add s.pdiv (nested pdi_sdf_filter s.sdfv)

  -- `ParsePDROptions`
  unfoldable pub parse_pdr_options : List Text → Parsed Attrs
  unfolding pdr_step
  parse_pdr_options args = parse_options pdr_step args no_pdr_options >>= λ s.
      parsed
        (if is_empty (with_filter s) then s.attrs else add s.attrs (nested pdr_pdi (with_filter s)))
