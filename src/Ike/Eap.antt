-- ===== src/Ike/Eap.antt =====
-- The events with which the NGAP server drives the EAP exchange, in internal/ike/handler.go:
-- HandleUnmarshalEAP5GDataResponse, HandleSendEAP5GFailureMsg, HandleSendEAPSuccessMsg,
-- HandleSendEAPNASMsg and HandleIKEContextUpdate.
--
-- A handler does not test whether its IKE SA is there: a nil pointer panics where it is first used.
-- Random numbers are lists, as in Exchange. The type assertion on the event panics for another event.
pub mod Keyed
pub mod Waiting
mod Tests
use n3iwf.Prelude.{
  ℕ, ◌+◌, ◌%◌, ◌^◌, Bool, true, false, List, [], ◌∷◌, Option, none, some, if◌then◌else◌,
}
use n3iwf.Prelude.Bytes.{Bytes}
use n3iwf.Prelude.Map.{lookup}
use n3iwf.Prelude.Outcome.{Outcome, ok, err, panic, out_of_fuel, ◌>>=◌, or_panic}
use n3iwf.Sa.{IkeSa, IkeUe}
use n3iwf.Context.{Go, new_n3iwf_ike_ue, ike_spi_ngap_id_mapping}
use n3iwf.Context.Children.{Host, set_ike_ue}
use n3iwf.Events.{
  IkeEvt, unmarshal_eap5g_data_response_evt, send_eap5g_failure_msg_evt, send_eap_success_msg_evt,
  send_eap_nas_msg_evt, ike_context_update_evt, send_initial_ue_message_evt,
}
use n3iwf.Ike.Exchange.{
  AuthBody, eap_failure, eap_success, eap_5g_nas, Response, AuthSent, to_ue, to_ngap, AuthEnv,
  AuthStep, set_ike_sa, draw_identifier,
}

-- A message of its own for the UE, under the message ID of the last request.
abbrev pub message_to : ℕ → ℕ → IkeSa → AuthBody → Response
message_to connection a sa body = record {
  connection = connection;
  keys = a;
  initiator_spi = sa.remote_spi;
  responder_spi = sa.local_spi;
  message_id = (sa.initiator_message_id + 4294967295) % 2 ^ 32;
  body = body;
}

-- A key that is not nil is stored.
abbrev pub or_key : Option Bytes → Option Bytes → Option Bytes
or_key none old = old
or_key (some k) old = some k

module _ {S G K : Type 0} where
  -- IKESALoad, and the object.
  load_sa : ℕ → Host S G K → Option (ℕ × IkeSa)
  load_sa spi h = elim (lookup spi h.context.ikesa) [
    | none ↦ none
    | some a ↦ elim (lookup a h.context.ike_sas) [ none ↦ none | some sa ↦ some (a, sa) ]
  ]

module _ {S G K : Type 0} (env : AuthEnv S K) where
  unfoldable pub handle_unmarshal_eap5g_data_response : Host S G K → IkeEvt → AuthStep S G K
  unfolding load_sa
  handle_unmarshal_eap5g_data_response h (unmarshal_eap5g_data_response_evt spi id nas) = do
    (a, sa) ← or_panic (load_sa spi h)
    let (u, w) = new_n3iwf_ike_ue spi h.context
    let h' = set_ike_sa a (record sa { ike_ue = some u }) (record h { context = w })
    ue ← or_panic (lookup u h'.context.ike_ues)
    let joined =
        set_ike_ue u
          (record ue { ike_security_association = some a; ike_connection = sa.ike_connection }) h'
    connection ← or_panic sa.ike_connection
    ok (
      record joined { context = ike_spi_ngap_id_mapping sa.local_spi id joined.context },
      to_ngap (
            send_initial_ue_message_evt id (env.ue_address connection) (env.ue_port connection) nas)
          ∷ [],
    )
  handle_unmarshal_eap5g_data_response h e = panic

  -- The identifier of the failure may be that of the last request.
  unfoldable pub handle_send_eap5g_failure_msg : Option ℕ → Host S G K → IkeEvt → AuthStep S G K
  unfolding load_sa
  handle_send_eap5g_failure_msg none h (send_eap5g_failure_msg_evt spi e) = ok (h, [])
  handle_send_eap5g_failure_msg (some i) h (send_eap5g_failure_msg_evt spi e) = do
    (a, sa) ← or_panic (load_sa spi h)
    connection ← or_panic sa.ike_connection
    ok (h, to_ue (message_to connection a sa (eap_failure i)) ∷ [])
  handle_send_eap5g_failure_msg o h e = panic

  -- With an identifier, or none.
  succeeded : ℕ → IkeSa → Host S G K → Option ℕ → AuthStep S G K
  succeeded a sa h none = ok (h, [])
  succeeded a sa h (some i) = do
    connection ← or_panic sa.ike_connection
    let r = message_to connection a sa (eap_success i)
    let next = if env.sends r then (sa.state + 1) % 2 ^ 8 else sa.state
    ok (set_ike_sa a (record sa { last_eap_identifier = i; state = next }) h, to_ue r ∷ [])

  -- The key of the AMF is stored, and the IKE SA goes on to the last round once the message is sent.
  unfoldable pub handle_send_eap_success_msg :
      List (Option ℕ) → Host S G K → IkeEvt → AuthStep S G K
  unfolding load_sa succeeded draw_identifier
  handle_send_eap_success_msg draws h (send_eap_success_msg_evt spi key n) = do
    (a, sa) ← or_panic (load_sa spi h)
    u ← or_panic sa.ike_ue
    ue ← or_panic (lookup u h.context.ike_ues)
    i ← draw_identifier sa.last_eap_identifier draws
    succeeded a sa
        (set_ike_ue u (record ue { kn3iwf = or_key key ue.kn3iwf; pdu_session_list_len = n }) h) i
  handle_send_eap_success_msg draws h e = panic

  carried : ℕ → IkeSa → Bytes → Host S G K → Option ℕ → AuthStep S G K
  carried a sa nas h none = ok (h, [])
  carried a sa nas h (some i) =
      let h' = set_ike_sa a (record sa { last_eap_identifier = i }) h in
      let sent = (do
        connection ← or_panic sa.ike_connection
        ok (h', to_ue (message_to connection a sa (eap_5g_nas i nas)) ∷ [])) in
      if env.carries_nas nas then sent else ok (h', [])

  -- Without an IKE SA, the loop leaves the handler on an error, and panics on a number.
  first_draw : List (Option ℕ) → Host S G K → AuthStep S G K
  first_draw [] h = out_of_fuel
  first_draw (none ∷ draws) h = ok (h, [])
  first_draw (some i ∷ draws) h = panic

  unfoldable pub handle_send_eap_nas_msg : List (Option ℕ) → Host S G K → IkeEvt → AuthStep S G K
  unfolding load_sa carried first_draw draw_identifier
  handle_send_eap_nas_msg draws h (send_eap_nas_msg_evt spi nas) =
      elim (load_sa spi h) as (λ _. AuthStep S G K) [
        | none ↦ first_draw draws h
        | some (a, sa) ↦ draw_identifier sa.last_eap_identifier draws >>= λ i. carried a sa nas h i
      ]
  handle_send_eap_nas_msg draws h e = panic

  unfoldable pub handle_ike_context_update : Host S G K → IkeEvt → AuthStep S G K
  handle_ike_context_update h (ike_context_update_evt spi key) =
      elim (lookup spi h.context.ike_ue_pool) as (λ _. AuthStep S G K) [
        | none ↦ ok (h, [])
        | some u ↦ do
          ue ← or_panic (lookup u h.context.ike_ues)
          ok (set_ike_ue u (record ue { kn3iwf = or_key key ue.kn3iwf }) h, [])
      ]
  handle_ike_context_update h e = panic
