-- ===== src/Ngap/Initial.antt =====
-- HandleUnmarshalEAP5GData: a first packet of a UE selects its AMF, a later one is passed on.
-- The flag IsInitialUE of the event is false for the first packet.
pub mod Keeps
pub mod Later
use n3iwf.Prelude.{
  ℕ, ◌+◌, ◌%◌, ◌^◌, Bool, true, false, List, [], ◌∷◌, ◌++◌, Option, none, some, ltb, ◌==◌,
  if◌then◌else◌,
}
use n3iwf.Prelude.Bytes.{Bytes}
use n3iwf.Prelude.Map.{Map, lookup, delete, insert}
use n3iwf.Prelude.Outcome.{Outcome, ok, err, panic, out_of_fuel, ◌>>=◌, or_panic, index}
use n3iwf.Context.{
  PduSession, SetupData, RanUe, N3iwf, Go, EvtError, err_nil, err_radio_conn_with_ue_lost,
  err_transport_resource_unavailable, err_amf_selection, err_other, assign, ike_spi_load,
  new_n3iwf_ran_ue, remove, delete_pdu_session,
}
use n3iwf.Context.Selection.{amf_selection}
use n3iwf.Eap5g.{Error, AnParameters, unmarshal_eap5g_data}
use n3iwf.Events.{
  NgapEvt, unmarshal_eap5g_data_evt, send_initial_ue_message_evt,
  send_pdu_session_resource_setup_res_evt, send_nas_msg_evt, start_tcp_signal_nas_msg_evt,
  nas_tcp_conn_established_complete_evt, send_ue_context_release_request_evt,
  send_ue_context_release_complete_evt, send_pdu_session_resource_release_res_evt,
  get_ngap_context_evt, send_uplink_nas_transport_evt, send_initial_context_setup_resp_evt,
  send_ue_context_release_evt, send_pdu_session_resource_release_evt,
  unmarshal_eap5g_data_response_evt, send_eap5g_failure_msg_evt, get_ngap_context_rep_evt,
}
use n3iwf.Ngap.Types.{
  Env, Sent, to_ike, to_tcp, initial_ue_message, uplink_nas_transport,
  initial_context_setup_response, pdu_session_resource_setup_response,
  pdu_session_resource_release_response, ue_context_release_request, ue_context_release_complete,
  Step, with_ran_ue,
}

module _ {S G : Type 0} (env : Env S G) where
  -- The UE at `p` is new: its AMF and its establishment cause, which must fit an int16.
  started : ℕ → Bytes → Option ℕ → ℕ → ℕ → N3iwf S G → RanUe → Step S G
  started spi nas none amf p w ue = ok (
    assign p (record ue { amf = some amf }) w,
    to_ike (unmarshal_eap5g_data_response_evt spi ue.ran_ue_ngap_id nas) ∷ [],
  )
  started spi nas (some value) amf p w ue =
      if ltb 32767 value
      then ok (assign p (record ue { amf = some amf }) w, [])
      else ok (
        assign p (record ue { amf = some amf; rrc_establishment_cause = value }) w,
        to_ike (unmarshal_eap5g_data_response_evt spi ue.ran_ue_ngap_id nas) ∷ [],
      )

  -- NewN3iwfRanUe, and an assignment to the field of its result, which panics for nil.
  start_ue : ℕ → Bytes → Option ℕ → ℕ → N3iwf S G → Step S G
  unfolding started new_n3iwf_ran_ue
  start_ue spi nas cause amf w = do
    p ← or_panic (new_n3iwf_ran_ue env.ids w).0
    ue ← or_panic (lookup p (new_n3iwf_ran_ue env.ids w).1.ran_ues)
    started spi nas cause amf p (new_n3iwf_ran_ue env.ids w).1 ue

  selected_ue : ℕ → Bytes → Option ℕ → N3iwf S G → Option ℕ → Step S G
  unfolding start_ue
  selected_ue spi nas cause w none =
      ok (w, to_ike (send_eap5g_failure_msg_evt spi err_amf_selection) ∷ [])
  selected_ue spi nas cause w (some amf) = start_ue spi nas cause amf w

  initial_ue : ℕ → Bytes → N3iwf S G → Option (AnParameters G Bytes) → Step S G
  unfolding selected_ue
  initial_ue spi nas w none = ok (w, [])
  initial_ue spi nas w (some params) = do
    selected ← amf_selection env.encode_guami params.guami params.selected_plmn w
    selected_ue spi nas params.establishment_cause w selected

  -- The rest of the handler, for the three parts that the packet yields.
  answer :
      ℕ → Bool → ℕ → N3iwf S G → Outcome Error (Option (AnParameters G Bytes) × Bytes) → Step S G
  unfolding initial_ue with_ran_ue
  answer spi later id w panic = panic
  answer spi later id w out_of_fuel = out_of_fuel
  answer spi later id w (err e) = ok (w, [])
  answer spi true id w (ok (params, nas)) =
      with_ran_ue id w (λ p ue. ok (w, uplink_nas_transport ue nas ∷ []))
  answer spi false id w (ok (params, nas)) = initial_ue spi nas w params

  pub handle_unmarshal_eap5g_data : N3iwf S G → NgapEvt → Step S G
  unfolding answer
  handle_unmarshal_eap5g_data w (unmarshal_eap5g_data_evt spi coded later id) =
      answer spi later id w (unmarshal_eap5g_data env.aper env.fuel coded)
  handle_unmarshal_eap5g_data w e = panic
