-- ===== src/Gnb/Ngap/Dispatch.antt =====
-- `Dispatch` of PacketRusher/internal/control_test_engine/gnb/ngap/dispatcher.go.
use g_cn_testbed_k8s.Base.{ℕ, List, Option, none, some, Result, ok, panic}
use g_cn_testbed_k8s.Gnb.State.{Gnb}
use g_cn_testbed_k8s.Gnb.Ngap.{Ie, Env}
use g_cn_testbed_k8s.Gnb.Ngap.Transport.{
  handler_downlink_nas_transport, handler_pdu_session_release_command,
  handler_ue_context_release_command, handler_error_indication,
}
use g_cn_testbed_k8s.Gnb.Ngap.Setup.{handler_initial_context_setup_request}
use g_cn_testbed_k8s.Gnb.Ngap.Resource.{handler_pdu_session_resource_setup_request}
use g_cn_testbed_k8s.Gnb.Ngap.Amf.{handler_ng_setup_response, handler_ng_setup_failure}
use g_cn_testbed_k8s.Gnb.Ngap.Update.{handler_amf_configuration_update}
use g_cn_testbed_k8s.Gnb.Ngap.Status.{handler_amf_status_indication}
use g_cn_testbed_k8s.Gnb.Ngap.Switch.{handler_path_switch_request_acknowledge}
use g_cn_testbed_k8s.Gnb.Ngap.HandoverRequest.{handler_handover_request}
use g_cn_testbed_k8s.Gnb.Ngap.Mobility.{handler_handover_command}
use g_cn_testbed_k8s.Gnb.Ngap.Page.{handler_paging}

-- The procedure codes that the gNodeB knows.
pub data Procedure : Type 0 where
  downlink_nas_transport initial_context_setup pdu_session_resource_setup : Procedure
  pdu_session_resource_release ue_context_release amf_configuration_update : Procedure
  amf_status_indication handover_resource_allocation paging error_indication : Procedure
  ng_setup path_switch_request handover_preparation other_procedure : Procedure

-- A decoded PDU; `absent` has none of the three choices, as after a failure to decode.
pub data Pdu : Type 0 where
  initiating_message successful_outcome unsuccessful_outcome : Procedure → List Ie → Pdu
  absent : Pdu

-- `Dispatch` of what the decoder returns, a PDU or a nil pointer, for the AMF that sent it.
unfoldable pub dispatch : Env → ℕ → Gnb → ℕ → Option Pdu → Result Gnb
dispatch env now g amf none = panic
dispatch env now g amf (some (initiating_message downlink_nas_transport ies)) =
    handler_downlink_nas_transport g ies
dispatch env now g amf (some (initiating_message initial_context_setup ies)) =
    handler_initial_context_setup_request env g ies
dispatch env now g amf (some (initiating_message pdu_session_resource_setup ies)) =
    handler_pdu_session_resource_setup_request env g ies
dispatch env now g amf (some (initiating_message pdu_session_resource_release ies)) =
    handler_pdu_session_release_command env g ies
dispatch env now g amf (some (initiating_message ue_context_release ies)) =
    handler_ue_context_release_command env g ies
dispatch env now g amf (some (initiating_message amf_configuration_update ies)) =
    handler_amf_configuration_update env g amf ies
dispatch env now g amf (some (initiating_message amf_status_indication ies)) =
    handler_amf_status_indication g ies
dispatch env now g amf (some (initiating_message handover_resource_allocation ies)) =
    handler_handover_request env g ies
dispatch env now g amf (some (initiating_message paging ies)) = handler_paging now g ies
dispatch env now g amf (some (initiating_message error_indication ies)) =
    handler_error_indication g ies
dispatch env now g amf (some (successful_outcome ng_setup ies)) =
    handler_ng_setup_response g amf ies
dispatch env now g amf (some (successful_outcome path_switch_request ies)) =
    handler_path_switch_request_acknowledge env g ies
dispatch env now g amf (some (successful_outcome handover_preparation ies)) =
    handler_handover_command g ies
dispatch env now g amf (some (unsuccessful_outcome ng_setup ies)) = handler_ng_setup_failure g amf
dispatch env now g amf (some _) = ok g
