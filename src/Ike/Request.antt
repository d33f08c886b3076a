-- ===== src/Ike/Request.antt =====
-- The requests to delete SAs that the gateway sends: SendUEInformationExchange, SendIKEDeleteRequest
-- and SendChildSADeleteRequest of internal/ike/send.go, and the events that lead to them,
-- HandleIKEDeleteEvt with removeIkeUe and HandleSendChildSADeleteRequest of internal/ike/handler.go.
--
-- A request is what SendIKEMessageToUE is called with; it reports what goes wrong in the log only.
pub mod Removed
pub mod Session
pub mod Loops
pub mod Purged
use n3iwf.Prelude.{
  ℕ, ◌+◌, ◌%◌, ◌^◌, Bool, true, false, List, [], ◌∷◌, ◌++◌, Option, none, some, ltb, ◌==◌, length,
  if◌then◌else◌,
}
use n3iwf.Prelude.Map.{Map, lookup}
use n3iwf.Prelude.Outcome.{Outcome, ok, err, panic, out_of_fuel, ◌>>=◌, index, or_panic}
use n3iwf.Sa.{ChildSa, IkeUe, IkeSa}
use n3iwf.Context.{Go}
use n3iwf.Context.Children.{
  Kernel, Host, Result, done, failed, SaError, no_ike_ue, spi_range, attempt, delete_child_sa,
  remove_ike_ue,
}

-- BuildDeletePayload: the protocol, the size and the number of the SPIs, and the SPIs.
pub record DeletePayload : Type 0 where
  pub protocol : ℕ
  pub spi_size : ℕ
  pub num_of_spi : ℕ
  pub spis : List ℕ

-- A message of an INFORMATIONAL exchange with a delete payload, on a connection, with the keys of the
-- IKE SA at a pointer.
pub record Request : Type 0 where
  pub connection : ℕ
  pub keys : ℕ
  pub initiator_spi : ℕ
  pub responder_spi : ℕ
  pub is_response : Bool
  pub is_initiator : Bool
  pub message_id : ℕ
  pub payload : DeletePayload

-- SendUEInformationExchange
abbrev pub send_ue_information_exchange : ℕ → IkeSa → DeletePayload → Bool → Bool → ℕ → ℕ → Request
send_ue_information_exchange a sa payload is_initiator is_response message_id connection = record {
  connection = connection;
  keys = a;
  initiator_spi = sa.remote_spi;
  responder_spi = sa.local_spi;
  is_response = is_response;
  is_initiator = is_initiator;
  message_id = message_id;
  payload = payload;
}

module _ {S G K : Type 0} where
  -- The call that both requests end in, for the UE at `u`.
  unfoldable pub send_delete : ℕ → DeletePayload → Host S G K → Go Request
  send_delete u payload h = do
    ue ← or_panic (lookup u h.context.ike_ues)
    a ← or_panic ue.ike_security_association
    sa ← or_panic (lookup a h.context.ike_sas)
    connection ← or_panic ue.ike_connection
    ok (send_ue_information_exchange a sa payload false false sa.responder_message_id connection)

  -- SendIKEDeleteRequest. The IKE UE of the SPI is found, or not.
  unfoldable pub send_ike_delete_request : ℕ → Option ℕ → Host S G K → Go (List Request)
  unfolding send_delete
  send_ike_delete_request type_ike none h = ok []
  send_ike_delete_request type_ike (some u) h = do
    r ← send_delete u (record { protocol = type_ike; spi_size = 0; num_of_spi = 0; spis = [] }) h
    ok (r ∷ [])

module _ {S G K : Type 0} (netlink : Kernel K) where
  -- removeIkeUe
  unfoldable pub remove_found :
      (Option ℕ → S → Option S)
      → Option ℕ
      → Host S G K
      → Go (Host S G K × Result SaError (Unit {0}))
  remove_found release none h = ok (h, failed no_ike_ue)
  remove_found release (some u) h = remove_ike_ue netlink release u h

  -- HandleIKEDeleteEvt
  unfoldable pub handle_ike_delete_evt :
      (Option ℕ → S → Option S) → ℕ → ℕ → Host S G K → Go (Host S G K × List Request)
  unfolding remove_found send_ike_delete_request
  handle_ike_delete_evt release type_ike spi h = do
    sent ← send_ike_delete_request type_ike (lookup spi h.context.ike_ue_pool) h
    r ← remove_found release (lookup spi h.context.ike_ue_pool) h
    ok (r.0, sent)

  -- A child SA of the session that is released: its SPI, once it is deleted.
  delete_one : ℕ → ChildSa → Host S G K → Go (Host S G K × Result SaError ℕ)
  delete_one u c h = do
    s ← index c.xfrm_state_list 0
    let deleted = attempt (delete_child_sa netlink u c h) (λ h _. ok (h, done s.spi)) in
        if ltb 4294967295 s.spi then ok (h, failed spi_range) else deleted

  -- The inner loop. The list is deleteSPIs so far.
  unfoldable pub delete_session :
      ℕ → ℕ → Map ChildSa → List ℕ → Host S G K → Go (Host S G K × Result SaError (List ℕ))
  unfolding delete_one
  delete_session u id [] spis h = ok (h, done spis)
  delete_session u id ((i, c) ∷ cs) spis h = do
    first ← index c.pdu_session_ids 0
    let skipped = delete_session u id cs spis h in
        let found =
          attempt (delete_one u c h) (λ h spi. delete_session u id cs (spis ++ spi ∷ []) h) in
        if first == id then found else skipped

  -- The outer loop, with a range over the child SAs that are left in each round.
  unfoldable pub delete_sessions :
      ℕ → List ℕ → List ℕ → Host S G K → Go (Host S G K × Result SaError (List ℕ))
  unfolding delete_session
  delete_sessions u [] spis h = ok (h, done spis)
  delete_sessions u (id ∷ ids) spis h = do
    ue ← or_panic (lookup u h.context.ike_ues)
    attempt (delete_session u id ue.child_security_association spis h)
        (λ h spis. delete_sessions u ids spis h)

  requested : ℕ → ℕ → Host S G K → Result SaError (List ℕ) → Go (Host S G K × List Request)
  unfolding send_delete
  requested type_esp u h (failed e) = ok (h, [])
  requested type_esp u h (done spis) = do
    r ←
        send_delete u
          (record {
            protocol = type_esp;
            spi_size = 4;
            num_of_spi = length spis % 2 ^ 16;
            spis = spis;
          })
          h
    ok (h, r ∷ [])

  -- SendChildSADeleteRequest on the UE at `u`.
  unfoldable pub send_child_sa_delete_request :
      ℕ → ℕ → List ℕ → Host S G K → Go (Host S G K × List Request)
  unfolding delete_sessions requested
  send_child_sa_delete_request type_esp u ids h =
      delete_sessions u ids [] h >>= λ r. requested type_esp u r.0 r.1

  -- HandleSendChildSADeleteRequest
  unfoldable pub handle_send_child_sa_delete_request :
      ℕ → ℕ → List ℕ → Host S G K → Go (Host S G K × List Request)
  unfolding send_child_sa_delete_request
  handle_send_child_sa_delete_request type_esp spi ids h = elim (lookup spi h.context.ike_ue_pool) [
    | none ↦ ok (h, [])
    | some u ↦ send_child_sa_delete_request type_esp u ids h
  ]
