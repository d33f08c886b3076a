-- ===== src/Ngap/Message.antt =====
-- The messages from the AMF, as package ngap decodes them, and the loops over their IEs that the
-- handlers in internal/ngap/handler.go begin with.
--
-- Each pointer on the way to the IEs can be nil, and so can the value of an IE, but the field that a
-- choice's tag names is set, unless a type says otherwise. A cause is a number. IEs that are only logged,
-- or only fill fields that no modelled code reads, are left out.
use n3iwf.Prelude.{ℕ, List, [], ◌∷◌, ◌++◌, Option, none, some}
use n3iwf.Prelude.Bytes.{Bytes}
use n3iwf.Ngap.Types.{
  IeId, id_amf_ue_ngap_id, id_ran_ue_ngap_id, id_nas_pdu, id_ue_ngap_ids,
  id_pdu_session_resource_to_release_list, id_pdu_session_resource_setup_list, id_guami,
  id_allowed_nssai, id_ue_security_capabilities, id_security_key, id_reset_type,
}

-- UENGAPIDs: both IDs (AMF, RAN), the AMF's alone, or another choice.
pub data UeNgapIds : Type 0 where
  ue_ngap_id_pair : ℕ → ℕ → UeNgapIds
  amf_ue_ngap_id_only : ℕ → UeNgapIds
  other_choice : UeNgapIds

-- ResetType; an item of a part has an AMF UE NGAP ID and a RAN UE NGAP ID, none for nil.
pub data ResetType : Type 0 where
  ng_interface other_reset_type : ResetType
  part_of_ng_interface : Option (List (Option ℕ × Option ℕ)) → ResetType

-- An item of the list of sessions to set up.
pub record SetupItem : Type 0 where
  pub session_id : ℕ
  pub session_nas : Option Bytes
  pub item_snssai : ℕ
  pub transfer : Bytes

-- An IE with its value, none for nil. The list to release has PDU session IDs.
pub data Ie : Type 0 where
  amf_ue_ngap_id ran_ue_ngap_id : Option ℕ → Ie
  nas_pdu : Option Bytes → Ie
  ue_ngap_ids : Option UeNgapIds → Ie
  pdu_session_resource_to_release_list : Option (List ℕ) → Ie
  ambr_ie core_network_assistance_information_ie guami_ie allowed_nssai_ie : Option ℕ → Ie
  ue_security_capabilities_ie ue_radio_capability_ie index_to_rfsp_ie masked_imeisv_ie :
      Option ℕ → Ie
  security_key_ie : Option Bytes → Ie
  setup_list_cxt_ie setup_list_su_ie : Option (List SetupItem) → Ie
  cause_ie : Option ℕ → Ie
  reset_type_ie : Option ResetType → Ie
  other_ie : Ie

-- The PDU, its initiating message, and the IEs of the message in that.
abbrev pub Message : Type 0
Message = Option (Option (Option (List Ie)))

-- The tests of the three pointers.
abbrev pub ies_of : Message → Option (List Ie)
ies_of (some (some (some ies))) = some ies
ies_of (some (some none)) = none
ies_of (some none) = none
ies_of none = none

-- What the loop over the IEs finds: the last value of each, and the IEs whose value is nil.
pub record Ies : Type 0 where
  pub amf_id : Option ℕ
  pub ran_id : Option ℕ
  pub nas : Option Bytes
  pub ids : Option UeNgapIds
  pub to_release : Option (List ℕ)
  pub to_set_up : Option (List SetupItem)
  pub ies_ambr : Option ℕ
  pub ies_core_network : Option ℕ
  pub ies_guami : Option ℕ
  pub ies_allowed_nssai : Option ℕ
  pub ies_capabilities : Option ℕ
  pub ies_radio_capability : Option ℕ
  pub ies_rfsp : Option ℕ
  pub ies_imeisv : Option ℕ
  pub ies_key : Option Bytes
  pub ies_cause : Option ℕ
  pub ies_reset : Option ResetType
  pub missing : List IeId

abbrev pub no_ies : Ies
no_ies = record {
  amf_id = none;
  ran_id = none;
  nas = none;
  ids = none;
  to_release = none;
  to_set_up = none;
  ies_ambr = none;
  ies_core_network = none;
  ies_guami = none;
  ies_allowed_nssai = none;
  ies_capabilities = none;
  ies_radio_capability = none;
  ies_rfsp = none;
  ies_imeisv = none;
  ies_key = none;
  ies_cause = none;
  ies_reset = none;
  missing = [];
}

abbrev noted : {A : Type 0} → Option A → IeId → List IeId → List IeId
noted none i missing = missing ++ i ∷ []
noted (some a) i missing = missing

-- The loops of the handlers in Amf.
abbrev pub downlink_ie : Ies → Ie → Ies
downlink_ie s (amf_ue_ngap_id v) = record s {
  amf_id = v;
  missing = noted v id_amf_ue_ngap_id s.missing;
}
downlink_ie s (ran_ue_ngap_id v) = record s {
  ran_id = v;
  missing = noted v id_ran_ue_ngap_id s.missing;
}
downlink_ie s (nas_pdu v) = record s { nas = v; missing = noted v id_nas_pdu s.missing }
downlink_ie s ie = s

abbrev pub release_command_ie : Ies → Ie → Ies
release_command_ie s (ue_ngap_ids v) = record s {
  ids = v;
  missing = noted v id_ue_ngap_ids s.missing;
}
release_command_ie s ie = s

abbrev pub resource_release_ie : Ies → Ie → Ies
resource_release_ie s (amf_ue_ngap_id v) = record s {
  amf_id = v;
  missing = noted v id_amf_ue_ngap_id s.missing;
}
resource_release_ie s (ran_ue_ngap_id v) = record s {
  ran_id = v;
  missing = noted v id_ran_ue_ngap_id s.missing;
}
resource_release_ie s (pdu_session_resource_to_release_list v) = record s {
  to_release = v;
  missing = noted v id_pdu_session_resource_to_release_list s.missing;
}
resource_release_ie s ie = s

-- The loop of HandleInitialContextSetupRequest. The list of sessions and the AMBR are not mandatory.
abbrev pub initial_context_ie : Ies → Ie → Ies
initial_context_ie s (amf_ue_ngap_id v) = record s {
  amf_id = v;
  missing = noted v id_amf_ue_ngap_id s.missing;
}
initial_context_ie s (ran_ue_ngap_id v) = record s {
  ran_id = v;
  missing = noted v id_ran_ue_ngap_id s.missing;
}
initial_context_ie s (guami_ie v) = record s { ies_guami = v; missing = noted v id_guami s.missing }
initial_context_ie s (allowed_nssai_ie v) = record s {
  ies_allowed_nssai = v;
  missing = noted v id_allowed_nssai s.missing;
}
initial_context_ie s (ue_security_capabilities_ie v) = record s {
  ies_capabilities = v;
  missing = noted v id_ue_security_capabilities s.missing;
}
initial_context_ie s (security_key_ie v) = record s {
  ies_key = v;
  missing = noted v id_security_key s.missing;
}
initial_context_ie s (ambr_ie v) = record s { ies_ambr = v }
initial_context_ie s (core_network_assistance_information_ie v) = record s { ies_core_network = v }
initial_context_ie s (setup_list_cxt_ie v) = record s { to_set_up = v }
initial_context_ie s (ue_radio_capability_ie v) = record s { ies_radio_capability = v }
initial_context_ie s (index_to_rfsp_ie v) = record s { ies_rfsp = v }
initial_context_ie s (masked_imeisv_ie v) = record s { ies_imeisv = v }
initial_context_ie s ie = s

-- The loop of HandlePDUSessionResourceSetupRequest.
abbrev pub resource_setup_ie : Ies → Ie → Ies
resource_setup_ie s (amf_ue_ngap_id v) = record s {
  amf_id = v;
  missing = noted v id_amf_ue_ngap_id s.missing;
}
resource_setup_ie s (ran_ue_ngap_id v) = record s {
  ran_id = v;
  missing = noted v id_ran_ue_ngap_id s.missing;
}
resource_setup_ie s (nas_pdu v) = record s { nas = v }
resource_setup_ie s (setup_list_su_ie v) = record s {
  to_set_up = v;
  missing = noted v id_pdu_session_resource_setup_list s.missing;
}
resource_setup_ie s ie = s

-- The loop of HandleNGReset.
abbrev pub reset_ie : Ies → Ie → Ies
reset_ie s (cause_ie v) = record s { ies_cause = v }
reset_ie s (reset_type_ie v) = record s { ies_reset = v; missing = noted v id_reset_type s.missing }
reset_ie s ie = s

unfoldable pub read_ies : (Ies → Ie → Ies) → Ies → List Ie → Ies
read_ies f s [] = s
read_ies f s (ie ∷ ies) = read_ies f (f s ie) ies
