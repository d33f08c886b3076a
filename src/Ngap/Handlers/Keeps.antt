-- ===== src/Ngap/Handlers/Keeps.antt =====
-- Every event keeps the pools consistent.
use n3iwf.Prelude.{
  ℕ, ◌≡◌, refl, Bool, true, false, List, [], ◌∷◌, some, inl, inr, Option-cases, Bool-cases,
}
use n3iwf.Prelude.Map.{lookup}
use n3iwf.Prelude.Outcome.{or_panic, After, bind-After, always, both-After}
use n3iwf.Context.{
  RanUe, N3iwf, err_nil, err_radio_conn_with_ue_lost, err_transport_resource_unavailable,
  err_amf_selection, err_other, delete_pdu_session, ike_spi_load, remove,
}
use n3iwf.Context.Pools.{IsConsistent, assign-IsConsistent, remove-IsConsistent}
use n3iwf.Context.Remove.{remove-ran_ues}
use n3iwf.Events.{
  NgapEvt, type_of, unmarshal_eap5g_data_evt, send_initial_ue_message_evt,
  send_pdu_session_resource_setup_res_evt, send_nas_msg_evt, start_tcp_signal_nas_msg_evt,
  nas_tcp_conn_established_complete_evt, send_ue_context_release_request_evt,
  send_ue_context_release_complete_evt, send_pdu_session_resource_release_res_evt,
  get_ngap_context_evt, send_uplink_nas_transport_evt, send_initial_context_setup_resp_evt,
  send_ue_context_release_evt, send_pdu_session_resource_release_evt,
}
use n3iwf.Ngap.Types.{Env}
use n3iwf.Ngap.Keep.{Kept, with_ran_ue-After}
use n3iwf.Ngap.Setup.Keeps.{handle_setup_response-Kept}
use n3iwf.Ngap.Initial.Keeps.{handle_unmarshal_eap5g_data-Kept}
use n3iwf.Ngap.Handlers.{
  handle_event, dispatch, delete_pdu_sessions, bytes_of, release, release_sessions,
  handle_send_initial_ue_message, handle_send_nas_msg, handle_start_tcp_signal_nas_msg,
  handle_nas_tcp_conn_established_complete, handle_send_ue_context_release_request,
  handle_send_ue_context_release_complete, handle_send_pdu_session_resource_release_res,
  handle_get_ngap_context, handle_send_uplink_nas_transport,
  handle_send_initial_context_setup_response, handle_send_ue_context_release, release_sessions,
  handle_send_pdu_session_resource_release,
}

delete_pdu_sessions-id :
    (ids : List ℕ) (ue : RanUe) → (delete_pdu_sessions ids ue).ran_ue_ngap_id ≡ ue.ran_ue_ngap_id
unfolding delete_pdu_sessions delete_pdu_session
delete_pdu_sessions-id [] ue = refl
delete_pdu_sessions-id (id ∷ ids) ue = delete_pdu_sessions-id ids (delete_pdu_session id ue)

module _ {S G : Type 0} (env : Env S G) (w : N3iwf S G) (c : IsConsistent w) where
  release-Kept :
      (p : ℕ) (ue : RanUe)
      → lookup p w.ran_ues ≡ some ue
      → (ongoing : Bool) → After Kept (release env w p ue ongoing)
  unfolding release
  release-Kept p ue l true =
      bind-After Kept (remove env.ids ue w) _
        (both-After IsConsistent (λ v. v.ran_ues ≡ w.ran_ues) (remove env.ids ue w)
          (remove-IsConsistent env.ids ue w c) (remove-ran_ues env.ids ue w))
        (λ v (d, e). assign-IsConsistent v p ue _ (rw e l) refl d)
  release-Kept p ue l false = assign-IsConsistent w p ue _ l refl c

  release_sessions-Kept :
      (ids : List ℕ) (p : ℕ) (ue : RanUe)
      → lookup p w.ran_ues ≡ some ue
      → (ongoing : Bool) → After Kept (release_sessions env w ids p ue ongoing)
  unfolding release_sessions
  release_sessions-Kept ids p ue l true = assign-IsConsistent w p ue _ l refl c
  release_sessions-Kept ids p ue l false =
      assign-IsConsistent w p ue _ l (delete_pdu_sessions-id ids ue) c

  -- Whatever event comes, the gateway goes from a consistent state to a consistent state: each
  -- pointer in the pool of RAN UEs leads to the UE of that ID, and no pointer in use is given out
  -- again. An event that panics, or runs out of fuel on its EAP-5G data, yields no state.
  pub handle_event-IsConsistent : (e : NgapEvt) → After Kept (handle_event env w e)
  unfolding handle_event dispatch type_of handle_send_initial_ue_message
      handle_start_tcp_signal_nas_msg handle_send_pdu_session_resource_release_res
      handle_send_uplink_nas_transport handle_send_initial_context_setup_response
      handle_send_nas_msg handle_nas_tcp_conn_established_complete
      handle_send_ue_context_release_request handle_send_ue_context_release_complete
      handle_get_ngap_context handle_send_ue_context_release
      handle_send_pdu_session_resource_release
  handle_event-IsConsistent (unmarshal_eap5g_data_evt spi coded later id) =
      handle_unmarshal_eap5g_data-Kept env w spi coded later id c
  handle_event-IsConsistent (send_initial_ue_message_evt id addr port nas) =
      with_ran_ue-After id w _ (λ p ue l. assign-IsConsistent w p ue _ l refl c) c
  handle_event-IsConsistent (send_pdu_session_resource_setup_res_evt id) =
      handle_setup_response-Kept env w c id
  handle_event-IsConsistent (send_nas_msg_evt id) =
      with_ran_ue-After id w _
        (λ p ue l. bind-After Kept (or_panic ue.tcp_connection) _ (always _) (λ k u.
          elim (Bool-cases (env.write k (bytes_of env ue.cached_nas))) [
            | inl h ↦ rw h (assign-IsConsistent w p ue _ l refl c)
            | inr h ↦ rw h c
          ]))
        c
  handle_event-IsConsistent (start_tcp_signal_nas_msg_evt id) =
      with_ran_ue-After id w _ (λ p ue l. assign-IsConsistent w p ue _ l refl c) c
  handle_event-IsConsistent (nas_tcp_conn_established_complete_evt id) =
      with_ran_ue-After id w _
        (λ p ue l. elim (Option-cases ue.cached_nas) [
          | inl h ↦ rw h (assign-IsConsistent w p ue _ l refl c)
          | inr (m, h) ↦ rw h (
              bind-After Kept (or_panic ue.tcp_connection) _ (always _)
                (λ k u. assign-IsConsistent w p ue _ l refl c))
        ])
        c
  handle_event-IsConsistent (send_ue_context_release_request_evt id err_radio_conn_with_ue_lost) =
      with_ran_ue-After id w _ (λ p ue l. c) c
  handle_event-IsConsistent (send_ue_context_release_request_evt id err_nil) =
      with_ran_ue-After id w _ (λ p ue l. tt) c
  handle_event-IsConsistent
        (send_ue_context_release_request_evt id err_transport_resource_unavailable) =
      c
  handle_event-IsConsistent (send_ue_context_release_request_evt id err_amf_selection) = c
  handle_event-IsConsistent (send_ue_context_release_request_evt id err_other) = c
  handle_event-IsConsistent (send_ue_context_release_complete_evt id) =
      with_ran_ue-After id w _
        (λ p ue l.
          bind-After Kept (remove env.ids ue w) _ (remove-IsConsistent env.ids ue w c) (λ v d. d))
        c
  handle_event-IsConsistent (send_pdu_session_resource_release_res_evt id) =
      with_ran_ue-After id w _ (λ p ue l. c) c
  handle_event-IsConsistent (get_ngap_context_evt id numbers) =
      with_ran_ue-After id w _
        (λ p ue l. elim (Option-cases (ike_spi_load id w)) [
          | inl h ↦ rw h c
          | inr (spi, h) ↦ rw h c
        ])
        c
  handle_event-IsConsistent (send_uplink_nas_transport_evt id pdu) =
      with_ran_ue-After id w _ (λ p ue l. c) c
  handle_event-IsConsistent (send_initial_context_setup_resp_evt id response failed) =
      with_ran_ue-After id w _ (λ p ue l. c) c
  handle_event-IsConsistent (send_ue_context_release_evt id) =
      with_ran_ue-After id w _ (λ p ue l. release-Kept p ue l ue.ue_ctx_rel_state) c
  handle_event-IsConsistent (send_pdu_session_resource_release_evt id ids) =
      with_ran_ue-After id w _
        (λ p ue l. release_sessions-Kept ids p ue l ue.pdu_sess_res_rel_state) c
