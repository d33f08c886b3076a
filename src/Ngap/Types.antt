-- ===== src/Ngap/Types.antt =====
-- What the handlers of the NGAP server's events share.
use n3iwf.Prelude.{ℕ, Bool, List, [], Option, none, some}
use n3iwf.Prelude.Bytes.{Bytes}
use n3iwf.Prelude.Map.{lookup}
use n3iwf.Prelude.Outcome.{ok, ◌>>=◌, or_panic}
use n3iwf.Context.{IdGenerator, PduSession, RanUe, N3iwf, Go, ran_ue_pool_load}
use n3iwf.Eap5g.{Aper}
use n3iwf.Events.{IkeEvt}

-- An IE of a transfer of a PDU session setup, with its value, none for nil.
pub data TransferIe : Type 0 where
  pdu_session_aggregate_maximum_bit_rate pdu_session_type_ie network_instance_ie :
      Option ℕ → TransferIe
  -- the GTP tunnel, none if the choice is another: the address of the UPF and its TEID
  ul_ngu_up_tnl_information : Option (Option (Bytes × Bytes)) → TransferIe
  -- the indications of integrity and of confidentiality
  security_indication_ie : Option (ℕ × ℕ) → TransferIe
  -- the flows' identifiers and parameters
  qos_flow_setup_request_list : Option (List (ℕ × ℕ)) → TransferIe
  other_transfer_ie : TransferIe

pub data TransferIeId : Type 0 where
  id_ul_ngu_up_tnl_information id_pdu_session_type id_qos_flow_setup_request_list : TransferIeId

-- The causes of an unsuccessful transfer.
pub data SetupCause : Type 0 where
  abstract_syntax_error_falsely_constructed_message semantic_error unspecified : SetupCause
  abstract_syntax_error_reject transport_resource_unavailable : SetupCause
  multiple_pdu_session_id_instances : SetupCause

-- The environment: the ID generators, package aper, TCP writes and closing (false for an error), the encoders of
-- an unsuccessful transfer and of a response transfer (none for their errors), and the fuel of the
-- loops of UnmarshalEAP5GData. Then the IEs that the decoder leaves in a transfer, with or without an
-- error; the encoder of an unsuccessful transfer for a cause and missing IEs; IPAddressToString (none for
-- the empty string) and ResolveUDPAddr with the port of GTP-U (none for an error).
pub record Env (S G : Type 0) : Type 0 where
  pub ids : IdGenerator S
  pub aper : Aper G Bytes
  pub encode_guami : Option G → Option Bytes
  pub write : ℕ → Bytes → Bool
  pub closes : ℕ → Bool
  pub unsuccessful_transfer : Option Bytes
  pub response_transfer : PduSession → Option Bytes
  pub fuel : ℕ
  pub decode_transfer : Bytes → List TransferIe
  pub refusal : SetupCause → List TransferIeId → Option Bytes
  pub ip_address_to_string : Bytes → Option Bytes
  pub resolve_udp_addr : Bytes → Option ℕ

-- The causes of the error indications.
pub data Cause : Type 0 where
  unknown_local_ue_ngap_id inconsistent_remote_ue_ngap_id : Cause

-- The IEs that the diagnostics name.
pub data IeId : Type 0 where
  id_amf_ue_ngap_id id_ran_ue_ngap_id id_nas_pdu id_ue_ngap_ids : IeId
  id_pdu_session_resource_to_release_list id_pdu_session_resource_setup_list : IeId
  id_reset_type id_guami id_allowed_nssai id_ue_security_capabilities id_security_key : IeId

pub data Sent : Type 0 where
  to_ike : IkeEvt → Sent
  to_tcp : ℕ → Bytes → Sent
  initial_ue_message : Option ℕ → RanUe → Bytes → Sent
  uplink_nas_transport : RanUe → Bytes → Sent
  initial_context_setup_response :
      RanUe → Option (List (ℕ × Bytes)) → Option (List (ℕ × Bytes)) → Sent
  -- the AMF, and the list of the part of the interface
  ng_reset_acknowledge : ℕ → Option (List (Option ℕ × Option ℕ)) → Sent
  initial_context_setup_failure : RanUe → List (ℕ × Bytes) → Sent
  pdu_session_resource_setup_response : RanUe → List (ℕ × Bytes) → List (ℕ × Bytes) → Sent
  pdu_session_resource_release_response : RanUe → List ℕ → Sent
  ue_context_release_request : RanUe → Sent
  ue_context_release_complete : RanUe → Sent
  -- the AMF, the RAN UE NGAP ID, the cause, and the IEs that are missing
  error_indication : ℕ → Option ℕ → Option Cause → List IeId → Sent

abbrev pub Step : Type 0 → Type 0 → Type 0
Step S G = Go (N3iwf S G × List Sent)

-- `ranUe, ok := n3iwfCtx.RanUePoolLoad(id); if !ok { return }`, and what follows for the object at
-- the pointer.
unfoldable pub with_ran_ue : {S G : Type 0} → ℕ → N3iwf S G → (ℕ → RanUe → Step S G) → Step S G
with_ran_ue id w k = elim (ran_ue_pool_load id w) [
  | none ↦ ok (w, [])
  | some p ↦ or_panic (lookup p w.ran_ues) >>= k p
]
