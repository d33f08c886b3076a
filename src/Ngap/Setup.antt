-- ===== src/Ngap/Setup.antt =====
-- HandleSendPDUSessionResourceSetupResponse.
pub mod Keeps
use n3iwf.Prelude.{
  ℕ, ◌+◌, ◌%◌, ◌^◌, Bool, true, false, List, [], ◌∷◌, ◌++◌, Option, none, some, ltb, ◌==◌,
  if◌then◌else◌,
}
use n3iwf.Prelude.Bytes.{Bytes}
use n3iwf.Prelude.Map.{Map, lookup, delete, insert}
use n3iwf.Prelude.Outcome.{Outcome, ok, err, panic, out_of_fuel, ◌>>=◌, or_panic, index}
use n3iwf.Context.{
  PduSession, SetupData, RanUe, N3iwf, Go, EvtError, err_nil, err_radio_conn_with_ue_lost,
  err_transport_resource_unavailable, err_amf_selection, err_other, assign, ike_spi_load,
  new_n3iwf_ran_ue, remove, delete_pdu_session,
}
use n3iwf.Eap5g.{AnParameters, unmarshal_eap5g_data}
use n3iwf.Events.{
  NgapEvt, unmarshal_eap5g_data_evt, send_initial_ue_message_evt,
  send_pdu_session_resource_setup_res_evt, send_nas_msg_evt, start_tcp_signal_nas_msg_evt,
  nas_tcp_conn_established_complete_evt, send_ue_context_release_request_evt,
  send_ue_context_release_complete_evt, send_pdu_session_resource_release_res_evt,
  get_ngap_context_evt, send_uplink_nas_transport_evt, send_initial_context_setup_resp_evt,
  send_ue_context_release_evt, send_pdu_session_resource_release_evt,
  unmarshal_eap5g_data_response_evt, send_eap5g_failure_msg_evt, get_ngap_context_rep_evt,
}
use n3iwf.Ngap.Types.{
  Env, Sent, to_ike, to_tcp, initial_ue_message, uplink_nas_transport,
  initial_context_setup_response, pdu_session_resource_setup_response,
  pdu_session_resource_release_response, ue_context_release_request, ue_context_release_complete,
  Step, with_ran_ue,
}

-- The lists of the response that belong to the NGAP procedure.
append_failed : ℕ → Bytes → SetupData → SetupData
append_failed id transfer setup =
    if setup.is_initial_context_setup
    then record setup { failed_list_cxt = setup.failed_list_cxt ++ (id, transfer) ∷ [] }
    else record setup { failed_list_su = setup.failed_list_su ++ (id, transfer) ∷ [] }

append_setup : ℕ → Bytes → SetupData → SetupData
append_setup id transfer setup =
    if setup.is_initial_context_setup
    then record setup { setup_list_cxt = setup.setup_list_cxt ++ (id, transfer) ∷ [] }
    else record setup { setup_list_su = setup.setup_list_su ++ (id, transfer) ∷ [] }

-- A round of the loop over the unactivated sessions: go on, or leave the handler.
data Loop : Type 0 where
  go_on leave : SetupData → Loop

module _ {S G : Type 0} (env : Env S G) where
  setup_round : PduSession → EvtError → SetupData → Loop
  unfolding append_failed append_setup
  setup_round session err_nil setup = elim (env.response_transfer session) [
    | none ↦ leave setup
    | some transfer ↦ go_on (append_setup session.id transfer setup)
  ]
  setup_round session err_transport_resource_unavailable setup = elim env.unsuccessful_transfer [
    | none ↦ go_on setup
    | some transfer ↦ go_on (append_failed session.id transfer setup)
  ]
  setup_round session e setup = leave setup

  setup_loop : List PduSession → ℕ → SetupData → Go Loop
  unfolding setup_round
  setup_loop [] i setup = ok (go_on setup)
  setup_loop (session ∷ sessions) i setup = do
    e ← index setup.failed_err_str i
    elim (setup_round session e setup) [
      | leave s ↦ ok (leave s)
      | go_on s ↦ setup_loop sessions (i + 1) s
    ]

  -- The response for the procedure, with the lists that the loop has filled.
  setup_response : RanUe → SetupData → Sent
  setup_response ue setup =
      if setup.is_initial_context_setup
      then initial_context_setup_response ue (some setup.setup_list_cxt)
          (some setup.failed_list_cxt)
      else pdu_session_resource_setup_response ue setup.setup_list_su setup.failed_list_su

  setup_end : N3iwf S G → ℕ → RanUe → Loop → Step S G
  unfolding setup_response
  setup_end w p ue (leave setup) = ok (assign p (record ue { setup_data = setup }) w, [])
  setup_end w p ue (go_on setup) =
      let after = record ue { setup_data = setup } in
      ok (assign p after w, setup_response after setup ∷ [])

  setup_answer : N3iwf S G → ℕ → RanUe → List PduSession → Step S G
  unfolding setup_loop setup_end
  setup_answer w p ue [] = ok (w, initial_context_setup_response ue none none ∷ [])
  setup_answer w p ue (session ∷ sessions) =
      setup_loop (session ∷ sessions) 0 ue.setup_data >>= setup_end w p ue

  pub handle_setup_response : N3iwf S G → NgapEvt → Step S G
  unfolding setup_answer with_ran_ue
  handle_setup_response w (send_pdu_session_resource_setup_res_evt id) =
      with_ran_ue id w (λ p ue. setup_answer w p ue ue.setup_data.unactivated)
  handle_setup_response w e = panic
