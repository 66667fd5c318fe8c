-- ===== src/Tunnel/Qer.antt =====
-- The options of QoS enforcement rules: `ParseQEROptions` of
-- PacketRusher/internal/cmd/gogtp5g-tunnel/cmd_qer.go.
pub mod Rates
use g_cn_testbed_k8s.Base.{
  ℕ, ◌/◌, ◌^◌, Bool, true, false, ◌||◌, List, [], ◌∷◌, Text, codes, text_eq, if◌then◌else◌, map,
}
use g_cn_testbed_k8s.Tunnel.Attributes.{
  AttrType, Attrs, end, u8, u32, nested, add, is_empty, qer_gate, qer_mbr, qer_gbr, qer_corr_id,
  qer_rqi, qer_qfi, qer_ppi, qer_mbr_ul_high32, qer_mbr_ul_low8, qer_mbr_dl_high32, qer_mbr_dl_low8,
  qer_gbr_ul_high32, qer_gbr_ul_low8, qer_gbr_dl_high32, qer_gbr_dl_low8,
}
use g_cn_testbed_k8s.Tunnel.Parser.{
  CmdParser, Parsed, parsed, refused, unknown_option, deprecated_option, number, ◌>>=◌,
  parse_options,
}

-- What has been read: the attributes, and the maximum and the guaranteed bit rates.
pub record QerOptions : Type 0 where
  pub attrs : Attrs
  pub mbrv : Attrs
  pub gbrv : Attrs

abbrev pub no_qer_options : QerOptions
no_qer_options = record { attrs = end; mbrv = end; gbrv = end }

-- A rate of 40 bits, as its high 32 bits and its low 8.
abbrev pub add_rate : AttrType → AttrType → Attrs → ℕ → Attrs
add_rate high low l v = add (add l (u32 high (v / 2 ^ 8))) (u8 low v)

unfoldable pub qer_mbr_option :
    (high low : AttrType) → Text → CmdParser → QerOptions → Parsed (CmdParser × QerOptions)
unfolding number
qer_mbr_option high low opt p s =
    number 40 opt p >>= λ v. parsed (v.1, record s { mbrv = add_rate high low s.mbrv v.0 })

unfoldable pub qer_gbr_option :
    (high low : AttrType) → Text → CmdParser → QerOptions → Parsed (CmdParser × QerOptions)
unfolding number
qer_gbr_option high low opt p s =
    number 40 opt p >>= λ v. parsed (v.1, record s { gbrv = add_rate high low s.gbrv v.0 })

unfoldable pub qer_u8_option :
    AttrType → Text → CmdParser → QerOptions → Parsed (CmdParser × QerOptions)
unfolding number
qer_u8_option t opt p s =
    number 8 opt p >>= λ v. parsed (v.1, record s { attrs = add s.attrs (u8 t v.0) })

unfoldable pub qer_corr_option : Text → CmdParser → QerOptions → Parsed (CmdParser × QerOptions)
unfolding number
qer_corr_option opt p s =
    number 32 opt p >>= λ v. parsed (v.1, record s { attrs = add s.attrs (u32 qer_corr_id v.0) })

pub is_one_of : Text → List Text → Bool
is_one_of t [] = false
is_one_of t (s ∷ l) = text_eq t s || is_one_of t l

-- The options that are refused as deprecated.
abbrev pub deprecated : List Text
deprecated =
    codes "--mbr-uhigh"
    ∷ codes "--mbr-ulow"
    ∷ codes "--mbr-dhigh"
    ∷ codes "--mbr-dlow"
    ∷ codes "--gbr-uhigh"
    ∷ codes "--gbr-ulow"
    ∷ codes "--gbr-dhigh"
    ∷ codes "--gbr-dlow"
    ∷ codes "--rcsr"
    ∷ []

-- The switch over the options.
unfoldable pub qer_step : Text → CmdParser → QerOptions → Parsed (CmdParser × QerOptions)
unfolding qer_mbr_option qer_gbr_option qer_u8_option qer_corr_option is_one_of
qer_step opt p s =
    if text_eq opt (codes "--gate-status")
    then qer_u8_option qer_gate opt p s
    else if is_one_of opt deprecated
    then refused (deprecated_option opt)
    else if text_eq opt (codes "--mbr-ul")
    then qer_mbr_option qer_mbr_ul_high32 qer_mbr_ul_low8 opt p s
    else if text_eq opt (codes "--mbr-dl")
    then qer_mbr_option qer_mbr_dl_high32 qer_mbr_dl_low8 opt p s
    else if text_eq opt (codes "--gbr-ul")
    then qer_gbr_option qer_gbr_ul_high32 qer_gbr_ul_low8 opt p s
    else if text_eq opt (codes "--gbr-dl")
    then qer_gbr_option qer_gbr_dl_high32 qer_gbr_dl_low8 opt p s
    else if text_eq opt (codes "--qer-corr-id")
    then qer_corr_option opt p s
    else if text_eq opt (codes "--rqi")
    then qer_u8_option qer_rqi opt p s
    else if text_eq opt (codes "--qfi")
    then qer_u8_option qer_qfi opt p s
    else if text_eq opt (codes "--ppi")
    then qer_u8_option qer_ppi opt p s
    else refused (unknown_option opt)

abbrev add_nested : AttrType → Attrs → Attrs → Attrs
add_nested t l inner = if is_empty inner then l else add l (nested t inner)

-- `ParseQEROptions`
unfoldable pub parse_qer_options : List Text → Parsed Attrs
unfolding qer_step
parse_qer_options args = parse_options qer_step args no_qer_options >>= λ s.
    parsed (add_nested qer_gbr (add_nested qer_mbr s.attrs s.mbrv) s.gbrv)
