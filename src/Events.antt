-- ===== src/Events.antt =====
-- The events that the NGAP server and the IKE server send to one another: internal/context/ngap.go
-- and internal/context/ike.go. A constructor is a struct with its New function, and `type_of` is the
-- Type method. An `interface{}` of GetNGAPContextRepEvt is the only object that is ever put there.
use n3iwf.Prelude.{ℕ, Bool, List, Option}
use n3iwf.Prelude.Bytes.{Bytes}
use n3iwf.Context.{EvtError, SetupData}

pub data NgapEventType : Type 0 where
  unmarshal_eap5g_data nas_tcp_conn_established_complete get_ngap_context : NgapEventType
  send_initial_ue_message send_pdu_session_resource_setup_response send_nas_msg : NgapEventType
  start_tcp_signal_nas_msg send_ue_context_release send_ue_context_release_request : NgapEventType
  send_ue_context_release_complete send_pdu_session_resource_release : NgapEventType
  send_pdu_session_resource_release_response send_uplink_nas_transport : NgapEventType
  send_initial_context_setup_response : NgapEventType

pub data NgapEvt : Type 0 where
  -- local SPI, EAP vendor data, the flag IsInitialUE, RAN UE NGAP ID
  unmarshal_eap5g_data_evt : ℕ → Bytes → Bool → ℕ → NgapEvt
  -- RAN UE NGAP ID, IPv4 address and port, NAS PDU
  send_initial_ue_message_evt : ℕ → Bytes → ℕ → Bytes → NgapEvt
  send_pdu_session_resource_setup_res_evt : ℕ → NgapEvt
  send_nas_msg_evt : ℕ → NgapEvt
  start_tcp_signal_nas_msg_evt : ℕ → NgapEvt
  nas_tcp_conn_established_complete_evt : ℕ → NgapEvt
  send_ue_context_release_request_evt : ℕ → EvtError → NgapEvt
  send_ue_context_release_complete_evt : ℕ → NgapEvt
  send_pdu_session_resource_release_res_evt : ℕ → NgapEvt
  get_ngap_context_evt : ℕ → List ℕ → NgapEvt
  send_uplink_nas_transport_evt : ℕ → Bytes → NgapEvt
  -- the response list and the failed list, which may be nil
  send_initial_context_setup_resp_evt :
      ℕ → Option (List (ℕ × Bytes)) → Option (List (ℕ × Bytes)) → NgapEvt
  send_ue_context_release_evt : ℕ → NgapEvt
  send_pdu_session_resource_release_evt : ℕ → List ℕ → NgapEvt

unfoldable pub type_of : NgapEvt → NgapEventType
type_of (unmarshal_eap5g_data_evt spi coded initial id) = unmarshal_eap5g_data
type_of (send_initial_ue_message_evt id addr port nas) = send_initial_ue_message
type_of (send_pdu_session_resource_setup_res_evt id) = send_pdu_session_resource_setup_response
type_of (send_nas_msg_evt id) = send_nas_msg
type_of (start_tcp_signal_nas_msg_evt id) = start_tcp_signal_nas_msg
type_of (nas_tcp_conn_established_complete_evt id) = nas_tcp_conn_established_complete
type_of (send_ue_context_release_request_evt id e) = send_ue_context_release_request
type_of (send_ue_context_release_complete_evt id) = send_ue_context_release_complete
type_of (send_pdu_session_resource_release_res_evt id) = send_pdu_session_resource_release_response
type_of (get_ngap_context_evt id numbers) = get_ngap_context
type_of (send_uplink_nas_transport_evt id pdu) = send_uplink_nas_transport
type_of (send_initial_context_setup_resp_evt id res failed) = send_initial_context_setup_response
type_of (send_ue_context_release_evt id) = send_ue_context_release
type_of (send_pdu_session_resource_release_evt id ids) = send_pdu_session_resource_release

pub data IkeEvt : Type 0 where
  -- local SPI, RAN UE NGAP ID, NAS PDU
  unmarshal_eap5g_data_response_evt : ℕ → ℕ → Bytes → IkeEvt
  send_eap5g_failure_msg_evt : ℕ → EvtError → IkeEvt
  send_eap_nas_msg_evt : ℕ → Bytes → IkeEvt
  -- local SPI, Kn3iwf (nil or a key), length of the PDU session list
  send_eap_success_msg_evt : ℕ → Option Bytes → ℕ → IkeEvt
  create_pdu_session_evt : ℕ → ℕ → SetupData → IkeEvt
  ike_delete_request_evt : ℕ → IkeEvt
  send_child_sa_delete_request_evt : ℕ → List ℕ → IkeEvt
  ike_context_update_evt : ℕ → Option Bytes → IkeEvt
  -- local SPI, the numbers that were asked for, the contexts
  get_ngap_context_rep_evt : ℕ → List ℕ → List SetupData → IkeEvt
