-- ===== src/Ngap/Handlers/Unknown.antt =====
-- Events for a RAN UE that is not in the pool.
use n3iwf.Prelude.{inl, inr, true, false, All, ℕ, ◌≡◌, refl, [], Option, none, some}
use n3iwf.Prelude.Bytes.{Bytes, IsByte}
use n3iwf.Ngap.Initial.{handle_unmarshal_eap5g_data}
use n3iwf.Ngap.Initial.Later.{later_unknown}
use n3iwf.Prelude.Map.{lookup}
use n3iwf.Prelude.Outcome.{ok, out_of_fuel}
use n3iwf.Context.{
  RanUe, N3iwf, err_nil, err_radio_conn_with_ue_lost, err_transport_resource_unavailable,
  err_amf_selection, err_other,
}
use n3iwf.Events.{
  NgapEvt, type_of, unmarshal_eap5g_data_evt, send_initial_ue_message_evt,
  send_pdu_session_resource_setup_res_evt, send_nas_msg_evt, start_tcp_signal_nas_msg_evt,
  nas_tcp_conn_established_complete_evt, send_ue_context_release_request_evt,
  send_ue_context_release_complete_evt, send_pdu_session_resource_release_res_evt,
  get_ngap_context_evt, send_uplink_nas_transport_evt, send_initial_context_setup_resp_evt,
  send_ue_context_release_evt, send_pdu_session_resource_release_evt,
}
use n3iwf.Ngap.Types.{Env, Step, with_ran_ue}
use n3iwf.Ngap.Keep.{with_ran_ue-none}
use n3iwf.Ngap.Setup.Keeps.{handle_setup_response-unknown}
use n3iwf.Ngap.Handlers.{
  handle_event, dispatch, handle_send_initial_ue_message, handle_send_nas_msg,
  handle_start_tcp_signal_nas_msg, handle_nas_tcp_conn_established_complete,
  handle_send_ue_context_release_request, handle_send_ue_context_release_complete,
  handle_send_pdu_session_resource_release_res, handle_get_ngap_context,
  handle_send_uplink_nas_transport, handle_send_initial_context_setup_response,
  handle_send_ue_context_release, handle_send_pdu_session_resource_release,
}

-- The UE that an event is about. EAP-5G data of a first message are about a new one.
abbrev pub subject : NgapEvt → Option ℕ
subject (unmarshal_eap5g_data_evt spi coded true id) = some id
subject (unmarshal_eap5g_data_evt spi coded false id) = none
subject (send_initial_ue_message_evt id addr port nas) = some id
subject (send_pdu_session_resource_setup_res_evt id) = some id
subject (send_nas_msg_evt id) = some id
subject (start_tcp_signal_nas_msg_evt id) = some id
subject (nas_tcp_conn_established_complete_evt id) = some id
subject (send_ue_context_release_request_evt id e) = some id
subject (send_ue_context_release_complete_evt id) = some id
subject (send_pdu_session_resource_release_res_evt id) = some id
subject (get_ngap_context_evt id numbers) = some id
subject (send_uplink_nas_transport_evt id pdu) = some id
subject (send_initial_context_setup_resp_evt id response failed) = some id
subject (send_ue_context_release_evt id) = some id
subject (send_pdu_session_resource_release_evt id ids) = some id

-- The packet of an event is made of bytes.
abbrev pub HasBytes : NgapEvt → Type 0
HasBytes (unmarshal_eap5g_data_evt spi coded later id) = All IsByte coded
HasBytes e = Unit

-- The event changes nothing and sends nothing; or it is the EAP-5G data of a later message, of which the
-- loops are not done within the fuel.
pub data Ignored {S G : Type 0} (w : N3iwf S G) : NgapEvt → Step S G → Type 0 where
  ignored : {e : NgapEvt} {r : Step S G} → r ≡ ok (w, []) → Ignored w e r
  unfinished :
      {spi id : ℕ} {coded : Bytes} {r : Step S G}
      → r ≡ out_of_fuel
      → Ignored w (unmarshal_eap5g_data_evt spi coded true id) r

module _ {S G : Type 0} (env : Env S G) (w : N3iwf S G) (id : ℕ)
    (h : lookup id w.ran_ue_pool ≡ none) where
  gone : {j : ℕ} → some j ≡ some id → lookup j w.ran_ue_pool ≡ none
  gone e = cc

  same :
      {j : ℕ} {e : NgapEvt} (k : ℕ → RanUe → Step S G)
      → some j ≡ some id
      → Ignored w e (with_ran_ue j w k)
  same {j} k e = ignored (with_ran_ue-none j w k (gone e))

  later_Ignored :
      (spi j : ℕ) (coded : Bytes)
      → All IsByte coded
      → some j ≡ some id
      → Ignored w
          (unmarshal_eap5g_data_evt spi coded true j)
          (handle_unmarshal_eap5g_data env w (unmarshal_eap5g_data_evt spi coded true j))
  later_Ignored spi j coded b e = elim (later_unknown env w j (gone e) spi coded b) [
    | inl f ↦ ignored f
    | inr f ↦ unfinished f
  ]

  -- An event about a UE that is not in the pool changes nothing and sends nothing, and does not panic.
  -- The EAP-5G data of a later message may instead use up the fuel of the loops that decode them, before
  -- the UE is looked up.
  pub handle_event-unknown :
      (e : NgapEvt) → HasBytes e → subject e ≡ some id → Ignored w e (handle_event env w e)
  unfolding handle_event dispatch type_of with_ran_ue handle_send_initial_ue_message
      handle_send_nas_msg handle_start_tcp_signal_nas_msg handle_nas_tcp_conn_established_complete
      handle_send_ue_context_release_request handle_send_ue_context_release_complete
      handle_send_pdu_session_resource_release_res handle_get_ngap_context
      handle_send_uplink_nas_transport handle_send_initial_context_setup_response
      handle_send_ue_context_release handle_send_pdu_session_resource_release
  handle_event-unknown (unmarshal_eap5g_data_evt spi coded true j) b e =
      later_Ignored spi j coded b e
  handle_event-unknown (unmarshal_eap5g_data_evt spi coded false j) b e = cc
  handle_event-unknown (send_initial_ue_message_evt j addr port nas) b e = same _ e
  handle_event-unknown (send_pdu_session_resource_setup_res_evt j) b e =
      ignored (handle_setup_response-unknown env w j (gone e))
  handle_event-unknown (send_nas_msg_evt j) b e = same _ e
  handle_event-unknown (start_tcp_signal_nas_msg_evt j) b e = same _ e
  handle_event-unknown (nas_tcp_conn_established_complete_evt j) b e = same _ e
  handle_event-unknown (send_ue_context_release_request_evt j err_nil) b e = same _ e
  handle_event-unknown (send_ue_context_release_request_evt j err_radio_conn_with_ue_lost) b e =
      same _ e
  handle_event-unknown (send_ue_context_release_request_evt j err_transport_resource_unavailable) b
        e =
      ignored refl
  handle_event-unknown (send_ue_context_release_request_evt j err_amf_selection) b e = ignored refl
  handle_event-unknown (send_ue_context_release_request_evt j err_other) b e = ignored refl
  handle_event-unknown (send_ue_context_release_complete_evt j) b e = same _ e
  handle_event-unknown (send_pdu_session_resource_release_res_evt j) b e = same _ e
  handle_event-unknown (get_ngap_context_evt j numbers) b e = same _ e
  handle_event-unknown (send_uplink_nas_transport_evt j pdu) b e = same _ e
  handle_event-unknown (send_initial_context_setup_resp_evt j response failed) b e = same _ e
  handle_event-unknown (send_ue_context_release_evt j) b e = same _ e
  handle_event-unknown (send_pdu_session_resource_release_evt j ids) b e = same _ e
