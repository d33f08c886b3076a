-- ===== src/Ngap/Handlers.antt =====
-- The other handlers, each with its type assertion on the event, and HandleEvent.
pub mod Keeps
pub mod Unknown
pub mod Release
pub mod Cached
use n3iwf.Prelude.{
  ℕ, ◌+◌, ◌%◌, ◌^◌, Bool, true, false, List, [], ◌∷◌, ◌++◌, Option, none, some, ltb, ◌==◌,
  if◌then◌else◌,
}
use n3iwf.Prelude.Bytes.{Bytes}
use n3iwf.Prelude.Map.{Map, lookup, delete, insert}
use n3iwf.Prelude.Outcome.{Outcome, ok, err, panic, out_of_fuel, ◌>>=◌, or_panic, index}
use n3iwf.Context.{
  PduSession, SetupData, RanUe, N3iwf, Go, EvtError, err_nil, err_radio_conn_with_ue_lost,
  err_transport_resource_unavailable, err_amf_selection, err_other, assign, ike_spi_load,
  new_n3iwf_ran_ue, remove, delete_pdu_session,
}
use n3iwf.Events.{
  get_ngap_context_rep_evt, NgapEventType, NgapEvt, type_of, unmarshal_eap5g_data,
  nas_tcp_conn_established_complete, get_ngap_context, send_initial_ue_message,
  send_pdu_session_resource_setup_response, send_nas_msg, start_tcp_signal_nas_msg,
  send_ue_context_release, send_ue_context_release_request, send_ue_context_release_complete,
  send_pdu_session_resource_release, send_pdu_session_resource_release_response,
  send_uplink_nas_transport, send_initial_context_setup_response, unmarshal_eap5g_data_evt,
  send_initial_ue_message_evt, send_pdu_session_resource_setup_res_evt, send_nas_msg_evt,
  start_tcp_signal_nas_msg_evt, nas_tcp_conn_established_complete_evt,
  send_ue_context_release_request_evt, send_ue_context_release_complete_evt,
  send_pdu_session_resource_release_res_evt, get_ngap_context_evt, send_uplink_nas_transport_evt,
  send_initial_context_setup_resp_evt, send_ue_context_release_evt,
  send_pdu_session_resource_release_evt,
}
use n3iwf.Ngap.Types.{
  Env, Sent, to_ike, to_tcp, initial_ue_message, uplink_nas_transport,
  initial_context_setup_response, pdu_session_resource_setup_response,
  pdu_session_resource_release_response, ue_context_release_request, ue_context_release_complete,
  Step, with_ran_ue,
}
use n3iwf.Ngap.Setup.{handle_setup_response}
use n3iwf.Ngap.Initial.{handle_unmarshal_eap5g_data}

-- The contexts that are asked for; CxtTempPDUSessionSetupData is 0.
requested_contexts : SetupData → List ℕ → List SetupData
requested_contexts setup [] = []
requested_contexts setup (n ∷ ns) =
    let rest = requested_contexts setup ns in if n == 0 then setup ∷ rest else rest

-- DeletePDUSession for each ID.
delete_pdu_sessions : List ℕ → RanUe → RanUe
unfolding delete_pdu_session
delete_pdu_sessions [] ue = ue
delete_pdu_sessions (id ∷ ids) ue = delete_pdu_sessions ids (delete_pdu_session id ue)

module _ {S G : Type 0} (env : Env S G) where
  pub handle_get_ngap_context : N3iwf S G → NgapEvt → Step S G
  unfolding with_ran_ue requested_contexts
  handle_get_ngap_context w (get_ngap_context_evt id numbers) = with_ran_ue id w (λ p ue.
      elim (ike_spi_load id w) [
        | none ↦ ok (w, [])
        | some spi ↦ ok (
          w,
          to_ike (get_ngap_context_rep_evt spi numbers (requested_contexts ue.setup_data numbers))
              ∷ [],
        )
      ])
  handle_get_ngap_context w e = panic

  -- int32(ipv4Port) keeps the low 32 bits.
  pub handle_send_initial_ue_message : N3iwf S G → NgapEvt → Step S G
  unfolding with_ran_ue
  handle_send_initial_ue_message w (send_initial_ue_message_evt id addr port nas) =
      with_ran_ue id w (λ p ue.
        let after = record ue { ip_addr_v4 = addr; port_number = port % 2 ^ 32 } in
        ok (assign p after w, initial_ue_message ue.amf after nas ∷ []))
  handle_send_initial_ue_message w e = panic

  -- A write of the cached message. A nil connection panics; a nil message is written as no bytes.
  bytes_of : Option Bytes → Bytes
  bytes_of none = []
  bytes_of (some b) = b

  pub handle_send_nas_msg : N3iwf S G → NgapEvt → Step S G
  unfolding with_ran_ue bytes_of
  handle_send_nas_msg w (send_nas_msg_evt id) = with_ran_ue id w (λ p ue. do
    connection ← or_panic ue.tcp_connection
    let message = bytes_of ue.cached_nas
    let cleared = assign p (record ue { cached_nas = none }) w
    ok (if env.write connection message then cleared else w, to_tcp connection message ∷ []))
  handle_send_nas_msg w e = panic

  pub handle_start_tcp_signal_nas_msg : N3iwf S G → NgapEvt → Step S G
  unfolding with_ran_ue
  handle_start_tcp_signal_nas_msg w (start_tcp_signal_nas_msg_evt id) =
      with_ran_ue id w (λ p ue. ok (assign p (record ue { is_nas_tcp_established = true }) w, []))
  handle_start_tcp_signal_nas_msg w e = panic

  -- The cached message is forgotten, whether or not the write succeeds.
  pub handle_nas_tcp_conn_established_complete : N3iwf S G → NgapEvt → Step S G
  unfolding with_ran_ue
  handle_nas_tcp_conn_established_complete w (nas_tcp_conn_established_complete_evt id) =
      with_ran_ue id w (λ p ue.
        let complete = record ue { is_nas_tcp_complete = true } in
        elim ue.cached_nas [
          | none ↦ ok (assign p complete w, [])
          | some message ↦ do
            connection ← or_panic ue.tcp_connection
            ok (assign p (record complete { cached_nas = none }) w, to_tcp connection message ∷ [])
        ])
  handle_nas_tcp_conn_established_complete w e = panic

  -- `*cause` of a nil cause panics: ErrNil leaves it nil.
  pub handle_send_ue_context_release_request : N3iwf S G → NgapEvt → Step S G
  unfolding with_ran_ue
  handle_send_ue_context_release_request w
        (send_ue_context_release_request_evt id err_radio_conn_with_ue_lost) =
      with_ran_ue id w (λ p ue. ok (w, ue_context_release_request ue ∷ []))
  handle_send_ue_context_release_request w (send_ue_context_release_request_evt id err_nil) =
      with_ran_ue id w (λ p ue. panic)
  handle_send_ue_context_release_request w (send_ue_context_release_request_evt id e) = ok (w, [])
  handle_send_ue_context_release_request w e = panic

  pub handle_send_ue_context_release_complete : N3iwf S G → NgapEvt → Step S G
  unfolding with_ran_ue
  handle_send_ue_context_release_complete w (send_ue_context_release_complete_evt id) =
      with_ran_ue id w
        (λ p ue. do w ← remove env.ids ue w; ok (w, ue_context_release_complete ue ∷ []))
  handle_send_ue_context_release_complete w e = panic

  pub handle_send_pdu_session_resource_release_res : N3iwf S G → NgapEvt → Step S G
  unfolding with_ran_ue
  handle_send_pdu_session_resource_release_res w (send_pdu_session_resource_release_res_evt id) =
      with_ran_ue id w
        (λ p ue. ok (w, pdu_session_resource_release_response ue ue.pdu_session_release_list ∷ []))
  handle_send_pdu_session_resource_release_res w e = panic

  pub handle_send_uplink_nas_transport : N3iwf S G → NgapEvt → Step S G
  unfolding with_ran_ue
  handle_send_uplink_nas_transport w (send_uplink_nas_transport_evt id pdu) =
      with_ran_ue id w (λ p ue. ok (w, uplink_nas_transport ue pdu ∷ []))
  handle_send_uplink_nas_transport w e = panic

  pub handle_send_initial_context_setup_response : N3iwf S G → NgapEvt → Step S G
  unfolding with_ran_ue
  handle_send_initial_context_setup_response w
        (send_initial_context_setup_resp_evt id response failed) =
      with_ran_ue id w (λ p ue. ok (w, initial_context_setup_response ue response failed ∷ []))
  handle_send_initial_context_setup_response w e = panic

  -- The first time asks the AMF for the release; the next time removes the UE and tells the AMF.
  release : N3iwf S G → ℕ → RanUe → Bool → Step S G
  release w p ue true = do
    w ← remove env.ids ue w
    ok (assign p (record ue { ue_ctx_rel_state = false }) w, ue_context_release_complete ue ∷ [])
  release w p ue false =
      ok (assign p (record ue { ue_ctx_rel_state = true }) w, ue_context_release_request ue ∷ [])

  pub handle_send_ue_context_release : N3iwf S G → NgapEvt → Step S G
  unfolding with_ran_ue release
  handle_send_ue_context_release w (send_ue_context_release_evt id) =
      with_ran_ue id w (λ p ue. release w p ue ue.ue_ctx_rel_state)
  handle_send_ue_context_release w e = panic

  release_sessions : N3iwf S G → List ℕ → ℕ → RanUe → Bool → Step S G
  unfolding delete_pdu_sessions
  release_sessions w ids p ue true = ok (
    assign p (record ue { pdu_sess_res_rel_state = false }) w,
    pdu_session_resource_release_response ue ue.pdu_session_release_list ∷ [],
  )
  release_sessions w ids p ue false =
      ok (assign p (record (delete_pdu_sessions ids ue) { pdu_sess_res_rel_state = true }) w, [])

  pub handle_send_pdu_session_resource_release : N3iwf S G → NgapEvt → Step S G
  unfolding with_ran_ue release_sessions
  handle_send_pdu_session_resource_release w (send_pdu_session_resource_release_evt id ids) =
      with_ran_ue id w (λ p ue. release_sessions w ids p ue ue.pdu_sess_res_rel_state)
  handle_send_pdu_session_resource_release w e = panic

  -- The switch of HandleEvent on the type of the event.
  dispatch : NgapEventType → N3iwf S G → NgapEvt → Step S G
  dispatch unmarshal_eap5g_data w e = handle_unmarshal_eap5g_data env w e
  dispatch send_initial_ue_message w e = handle_send_initial_ue_message w e
  dispatch send_pdu_session_resource_setup_response w e = handle_setup_response env w e
  dispatch send_nas_msg w e = handle_send_nas_msg w e
  dispatch start_tcp_signal_nas_msg w e = handle_start_tcp_signal_nas_msg w e
  dispatch nas_tcp_conn_established_complete w e = handle_nas_tcp_conn_established_complete w e
  dispatch send_ue_context_release w e = handle_send_ue_context_release w e
  dispatch send_ue_context_release_request w e = handle_send_ue_context_release_request w e
  dispatch send_ue_context_release_complete w e = handle_send_ue_context_release_complete w e
  dispatch send_pdu_session_resource_release w e = handle_send_pdu_session_resource_release w e
  dispatch send_pdu_session_resource_release_response w e =
      handle_send_pdu_session_resource_release_res w e
  dispatch get_ngap_context w e = handle_get_ngap_context w e
  dispatch send_uplink_nas_transport w e = handle_send_uplink_nas_transport w e
  dispatch send_initial_context_setup_response w e = handle_send_initial_context_setup_response w e

  pub handle_event : N3iwf S G → NgapEvt → Step S G
  unfolding dispatch type_of
  handle_event w e = dispatch (type_of e) w e
