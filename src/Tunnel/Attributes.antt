-- ===== src/Tunnel/Attributes.antt =====
-- Netlink attributes, as the tool hands them to the kernel's client. The types are those of the
-- gtp5g library, by name.
use g_cn_testbed_k8s.Base.{ℕ, ◌%◌, ◌^◌, Bool, true, false, List, Text}

pub data AttrType : Type 0 where
  far_apply_action far_forwarding_parameter : AttrType
  forwarding_parameter_outer_header_creation forwarding_parameter_forwarding_policy : AttrType
  outer_header_creation_description outer_header_creation_o_teid : AttrType
  outer_header_creation_peer_addr_ipv4 outer_header_creation_port : AttrType
  pdr_precedence pdr_outer_header_removal pdr_far_id pdr_qer_id pdr_role_addr_ipv4 : AttrType
  pdr_unix_socket_path pdr_pdi : AttrType
  pdi_ue_addr_ipv4 pdi_src_intf pdi_f_teid pdi_sdf_filter : AttrType
  f_teid_i_teid f_teid_gtpu_addr_ipv4 : AttrType
  sdf_filter_flow_description sdf_filter_tos_traffic_class : AttrType
  sdf_filter_security_parameter_index sdf_filter_flow_label sdf_filter_sdf_filter_id : AttrType
  flow_description_action flow_description_direction flow_description_protocol : AttrType
  flow_description_src_ipv4 flow_description_src_mask flow_description_src_port : AttrType
  flow_description_dest_ipv4 flow_description_dest_mask flow_description_dest_port : AttrType
  qer_gate qer_mbr qer_gbr qer_corr_id qer_rqi qer_qfi qer_ppi : AttrType
  qer_mbr_ul_high32 qer_mbr_ul_low8 qer_mbr_dl_high32 qer_mbr_dl_low8 : AttrType
  qer_gbr_ul_high32 qer_gbr_ul_low8 qer_gbr_dl_high32 qer_gbr_dl_low8 : AttrType

-- `num` has the width of its number in bits.
mutual
  pub data Attr : Type 0 where
    num : (width : ℕ) → AttrType → ℕ → Attr
    bytes : AttrType → List ℕ → Attr
    string : AttrType → Text → Attr
    nested : AttrType → Attrs → Attr

  pub data Attrs : Type 0 where
    end : Attrs
    attr : Attr → Attrs → Attrs

-- The conversions `nl.AttrU8(v)` and so on keep the low bits.
abbrev pub u8 : AttrType → ℕ → Attr
u8 t v = num 8 t (v % 2 ^ 8)

abbrev pub u16 : AttrType → ℕ → Attr
u16 t v = num 16 t (v % 2 ^ 16)

abbrev pub u32 : AttrType → ℕ → Attr
u32 t v = num 32 t (v % 2 ^ 32)

-- `append` of one list to another.
unfoldable pub append : Attrs → Attrs → Attrs
append end m = m
append (attr a l) m = attr a (append l m)

abbrev pub one : Attr → Attrs
one a = attr a end

abbrev pub add : Attrs → Attr → Attrs
unfolding append
add l a = append l (one a)

-- `len(l) != 0`
abbrev pub is_empty : Attrs → Bool
is_empty end = true
is_empty (attr a l) = false
