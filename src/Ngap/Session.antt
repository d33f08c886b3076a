-- ===== src/Ngap/Session.antt =====
-- The set-up of PDU sessions, in internal/ngap/handler.go: handlePDUSessionResourceSetupRequestTransfer,
-- and the loop over the sessions of a request that HandleInitialContextSetupRequest and
-- HandlePDUSessionResourceSetupRequest have.
--
-- A session is written back when its transfer is taken; one that is turned down is deleted, and nothing
-- else holds it. The UE is written back at the end of the loop, in which nothing else reads it. An encoding
-- error leaves a nil transfer, which is no bytes.
pub mod Keeps
pub mod Taken
pub mod Round
pub mod Settled
use n3iwf.Prelude.{
  ℕ, Bool, true, false, List, [], ◌∷◌, ◌++◌, Option, none, some, ltb, ◌==◌, ◌||◌, if◌then◌else◌,
}
use n3iwf.Prelude.Bytes.{Bytes, uint32}
use n3iwf.Prelude.Map.{lookup, insert}
use n3iwf.Prelude.Outcome.{Outcome, ok, err, panic, out_of_fuel, ◌>>=◌, or_panic}
use n3iwf.Context.{
  GtpConnectionInfo, PduSession, SetupData, RanUe, N3iwf, Go, new_pdu_session, create_pdu_session,
  delete_pdu_session, new_teid,
}
use n3iwf.Ngap.Message.{SetupItem}
use n3iwf.Ngap.Types.{
  Env, TransferIe, pdu_session_aggregate_maximum_bit_rate, pdu_session_type_ie, network_instance_ie,
  ul_ngu_up_tnl_information, security_indication_ie, qos_flow_setup_request_list, other_transfer_ie,
  TransferIeId, id_ul_ngu_up_tnl_information, id_pdu_session_type, id_qos_flow_setup_request_list,
  SetupCause, abstract_syntax_error_falsely_constructed_message, semantic_error, unspecified,
  abstract_syntax_error_reject, transport_resource_unavailable, multiple_pdu_session_id_instances,
}

-- What the loop over the IEs of a transfer finds.
pub record Transfer : Type 0 where
  pub transfer_ambr : Option ℕ
  pub tunnel : Option (Option (Bytes × Bytes))
  pub transfer_type : Option ℕ
  pub security : Option (ℕ × ℕ)
  pub instance_name : Option ℕ
  pub flows : Option (List (ℕ × ℕ))
  pub absent : List TransferIeId

abbrev pub no_transfer : Transfer
no_transfer = record {
  transfer_ambr = none;
  tunnel = none;
  transfer_type = none;
  security = none;
  instance_name = none;
  flows = none;
  absent = [];
}

abbrev listed : {A : Type 0} → Option A → TransferIeId → List TransferIeId → List TransferIeId
listed none i absent = absent ++ i ∷ []
listed (some a) i absent = absent

abbrev transfer_ie : Transfer → TransferIe → Transfer
transfer_ie t (pdu_session_aggregate_maximum_bit_rate v) = record t { transfer_ambr = v }
transfer_ie t (ul_ngu_up_tnl_information v) = record t {
  tunnel = v;
  absent = listed v id_ul_ngu_up_tnl_information t.absent;
}
transfer_ie t (pdu_session_type_ie v) = record t {
  transfer_type = v;
  absent = listed v id_pdu_session_type t.absent;
}
transfer_ie t (security_indication_ie v) = record t { security = v }
transfer_ie t (network_instance_ie v) = record t { instance_name = v }
transfer_ie t (qos_flow_setup_request_list v) = record t {
  flows = v;
  absent = listed v id_qos_flow_setup_request_list t.absent;
}
transfer_ie t other_transfer_ie = t

unfoldable pub read_transfer : Transfer → List TransferIe → Transfer
read_transfer t [] = t
read_transfer t (ie ∷ ies) = read_transfer (transfer_ie t ie) ies

-- Required is 0, preferred is 1 and not needed is 2; none for another indication.
abbrev indicated : ℕ → Option Bool
indicated n = if n == 2 then some false else if n == 1 || n == 0 then some true else none

abbrev with_indications : Option Bool → Option Bool → PduSession → Option PduSession
with_indications (some i) (some c) s =
    some (record s { security_integrity = i; security_cipher = c })
with_indications none c s = none
with_indications (some i) none s = none

-- The security indication: none for one that is unknown.
unfoldable pub secure : Option (ℕ × ℕ) → PduSession → Option PduSession
secure none s = some (record s { security_integrity = true; security_cipher = true })
secure (some (i, c)) s = with_indications (indicated i) (indicated c) s

-- The QoS flows: none for an identifier that is not a uint8.
unfoldable pub add_flows : List (ℕ × ℕ) → PduSession → Option PduSession
add_flows [] s = some s
add_flows ((qfi, params) ∷ flows) s =
    let rest =
      add_flows flows (record s {
        qos_flows = insert qfi params s.qos_flows;
        qfi_list = s.qfi_list ++ qfi ∷ [];
      }) in
    if ltb 255 qfi then none else rest

-- Uint32 of the TEID of the UPF.
abbrev pub teid_of : Bytes → Go ℕ
teid_of (a ∷ b ∷ c ∷ d ∷ rest) = ok (uint32 a b c d)
teid_of short = panic

-- The two results: the session is set up, or the transfer for the SMF.
pub data TransferResult : Type 0 where
  set_up : PduSession → TransferResult
  turned_down : Bytes → TransferResult

abbrev pub bytes_or_nil : Option Bytes → Bytes
bytes_or_nil none = []
bytes_or_nil (some b) = b

abbrev pub with_base : Transfer → PduSession → PduSession
with_base t s = record s {
  session_ambr = t.transfer_ambr;
  pdu_session_type = t.transfer_type;
  network_instance = t.instance_name;
}

-- The lists of the sessions that are turned down: of the initial context setup, or of the other
-- procedure.
unfoldable pub add_failed : Bool → ℕ → Bytes → SetupData → SetupData
add_failed true id transfer d = record d {
  failed_list_cxt = d.failed_list_cxt ++ (id, transfer) ∷ [];
}
add_failed false id transfer d = record d {
  failed_list_su = d.failed_list_su ++ (id, transfer) ∷ [];
}

-- A session joins the unactivated ones, or is deleted and listed.
unfoldable pub settle : Bool → ℕ → RanUe → TransferResult → RanUe
settle initial id ue (set_up s) = record ue {
  pdu_session_list = insert id s ue.pdu_session_list;
  setup_data = record ue.setup_data { unactivated = ue.setup_data.unactivated ++ s ∷ [] };
}
settle initial id ue (turned_down transfer) = record (delete_pdu_session id ue) {
  setup_data = add_failed initial id transfer ue.setup_data;
}

-- The temporary data for a new procedure.
unfoldable pub start_setup : Bool → SetupData → SetupData
start_setup true d = record d {
  setup_list_cxt = [];
  failed_list_cxt = [];
  index = 0;
  unactivated = [];
  is_initial_context_setup = true;
}
start_setup false d = record d {
  setup_list_su = [];
  failed_list_su = [];
  index = 0;
  unactivated = [];
  is_initial_context_setup = false;
}

module _ {S G : Type 0} (env : Env S G) where
  refuse : SetupCause → List TransferIeId → TransferResult
  refuse cause absent = turned_down (bytes_or_nil (env.refusal cause absent))

  -- The tunnel to the UPF, whose address and TEID are known.
  connected : Option ℕ → ℕ → ℕ → PduSession → N3iwf S G → N3iwf S G × TransferResult
  unfolding refuse
  connected none outgoing p s w = (w, refuse transport_resource_unavailable [])
  connected (some addr) outgoing p s w =
      let (teid, w') = new_teid env.ids p w in
      if teid == 0 then (w', refuse unspecified []) else (
        w',
        set_up (record s {
          gtp_conn_info =
              some (record { upf_udp_addr = addr; incoming_teid = teid; outgoing_teid = outgoing });
        }),
      )

  tunnelled : Bytes × Bytes → ℕ → PduSession → N3iwf S G → Go (N3iwf S G × TransferResult)
  unfolding connected
  tunnelled (addr, teid) p s w =
      elim (env.ip_address_to_string addr) as (λ _. Go (N3iwf S G × TransferResult)) [
        | none ↦ ok (w, refuse abstract_syntax_error_reject [])
        | some ip ↦
            teid_of teid >>= λ outgoing. ok (connected (env.resolve_udp_addr ip) outgoing p s w)
      ]

  flowing : Transfer → ℕ → Option PduSession → N3iwf S G → Go (N3iwf S G × TransferResult)
  unfolding tunnelled
  flowing t p none w = ok (w, turned_down [])
  flowing t p (some s) w = do
    information ← or_panic t.tunnel
    gtp ← or_panic information
    tunnelled gtp p s w

  secured : Transfer → ℕ → Option PduSession → N3iwf S G → Go (N3iwf S G × TransferResult)
  unfolding flowing add_flows
  secured t p none w = ok (w, refuse semantic_error [])
  secured t p (some s) w = do flows ← or_panic t.flows; flowing t p (add_flows flows s) w

  checked :
      Transfer → List TransferIeId → ℕ → PduSession → N3iwf S G → Go (N3iwf S G × TransferResult)
  unfolding secured secure
  checked t (i ∷ absent) p s w =
      ok (w, refuse abstract_syntax_error_falsely_constructed_message (i ∷ absent))
  checked t [] p s w = secured t p (secure t.security (with_base t s)) w

  -- handlePDUSessionResourceSetupRequestTransfer for the UE at `p`.
  unfoldable pub handle_pdu_session_resource_setup_request_transfer :
      ℕ → PduSession → List TransferIe → N3iwf S G → Go (N3iwf S G × TransferResult)
  unfolding checked read_transfer
  handle_pdu_session_resource_setup_request_transfer p s ies w =
      let t = read_transfer no_transfer ies in checked t t.absent p s w

  -- A round of the loop, for the UE `ue` at `p`.
  unfoldable pub setup_item : Bool → ℕ → SetupItem → RanUe × N3iwf S G → Go (RanUe × N3iwf S G)
  unfolding handle_pdu_session_resource_setup_request_transfer create_pdu_session settle refuse
  setup_item initial p x (ue, w) = elim (create_pdu_session x.session_id x.item_snssai ue) [
    | none ↦ ok (
      record ue {
        setup_data =
            add_failed initial x.session_id
              (bytes_or_nil (env.refusal multiple_pdu_session_id_instances [])) ue.setup_data;
      },
      w,
    )
    | some ue' ↦
        handle_pdu_session_resource_setup_request_transfer p
          (new_pdu_session x.session_id x.item_snssai) (env.decode_transfer x.transfer) w
        >>= λ r. ok (settle initial x.session_id ue' r.1, r.0)
  ]

  unfoldable pub setup_items :
      Bool → ℕ → List SetupItem → RanUe × N3iwf S G → Go (RanUe × N3iwf S G)
  unfolding setup_item
  setup_items initial p [] r = ok r
  setup_items initial p (x ∷ xs) r = setup_item initial p x r >>= λ r'. setup_items initial p xs r'
