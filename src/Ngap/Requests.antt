-- ===== src/Ngap/Requests.antt =====
-- HandleInitialContextSetupRequest and HandlePDUSessionResourceSetupRequest of internal/ngap/handler.go;
-- the loop over their sessions stands in Session. SendInitialContextSetupFailure drops a list of
-- more than MaxNumOfPDUSessions, 256, and panics on a nil UE. Each function stands for the code from
-- where it begins to the end of the handler.
pub mod Keeps
mod Tests
pub mod Undecodable
use n3iwf.Prelude.{
  ℕ, Bool, true, false, List, [], ◌∷◌, ◌++◌, Option, none, some, length, ltb, ◌==◌, if◌then◌else◌,
}
use n3iwf.Prelude.Bytes.{Bytes}
use n3iwf.Prelude.Map.{lookup}
use n3iwf.Prelude.Outcome.{Outcome, ok, err, panic, out_of_fuel, ◌>>=◌, or_panic}
use n3iwf.Nas.{encap_nas_msg_to_envelope}
use n3iwf.Context.{PduSession, RanUe, N3iwf, Go, assign, ike_spi_load, ran_ue_pool_load}
use n3iwf.Events.{send_eap_success_msg_evt, create_pdu_session_evt}
use n3iwf.Ngap.Message.{
  SetupItem, Message, ies_of, Ies, no_ies, initial_context_ie, resource_setup_ie, read_ies,
}
use n3iwf.Ngap.Types.{
  Env, IeId, Sent, to_ike, to_tcp, initial_context_setup_failure, Step,
  abstract_syntax_error_falsely_constructed_message,
}
use n3iwf.Ngap.Session.{bytes_or_nil, start_setup, setup_items}

abbrev or_keep : Option ℕ → Option ℕ → Option ℕ
or_keep none old = old
or_keep (some n) old = some n

abbrev rfsp_or : Option ℕ → ℕ → ℕ
rfsp_or none old = old
rfsp_or (some n) old = n

-- The IEs that are only stored.
abbrev pub stored : Ies → RanUe → RanUe
stored s ue = record ue {
  guami = or_keep s.ies_guami ue.guami;
  allowed_nssai = or_keep s.ies_allowed_nssai ue.allowed_nssai;
  masked_imeisv = or_keep s.ies_imeisv ue.masked_imeisv;
  radio_capability = or_keep s.ies_radio_capability ue.radio_capability;
  core_network_assistance_information =
      or_keep s.ies_core_network ue.core_network_assistance_information;
  index_to_rfsp = rfsp_or s.ies_rfsp ue.index_to_rfsp;
  security_capabilities = or_keep s.ies_capabilities ue.security_capabilities;
}

-- Every session of a request with one transfer.
abbrev failures : Bytes → List SetupItem → List (ℕ × Bytes)
failures transfer [] = []
failures transfer (x ∷ xs) = (x.session_id, transfer) ∷ failures transfer xs

-- The NAS message of the last session.
unfoldable pub last_nas : Option Bytes → List SetupItem → Option Bytes
last_nas nas [] = nas
last_nas nas (x ∷ xs) = last_nas x.session_nas xs

module _ {S G : Type 0} (env : Env S G) where
  failed_list : List SetupItem → List (ℕ × Bytes)
  failed_list items =
      failures (bytes_or_nil (env.refusal abstract_syntax_error_falsely_constructed_message []))
        items

  -- SendInitialContextSetupFailure, for a UE or for nil.
  send_failure : Option RanUe → List (ℕ × Bytes) → N3iwf S G → Step S G
  send_failure none list w = if ltb 256 (length list) then ok (w, []) else panic
  send_failure (some ue) list w =
      if ltb 256 (length list)
      then ok (w, [])
      else ok (w, initial_context_setup_failure ue list ∷ [])

  -- The EAP success.
  succeed : Option Bytes → RanUe → N3iwf S G → Step S G
  succeed key ue w = elim (ike_spi_load ue.ran_ue_ngap_id w) as (λ _. Step S G) [
    | none ↦ ok (w, [])
    | some spi ↦ do
      key ← or_panic key
      ok (w, to_ike (send_eap_success_msg_evt spi (some key) (length ue.pdu_session_list)) ∷ [])
  ]

  initial_end : Ies → ℕ → RanUe × N3iwf S G → Step S G
  unfolding succeed
  initial_end s p (ue, w) = succeed s.ies_key (stored s ue) (assign p (stored s ue) w)

  -- The list of sessions and the AMBR.
  initial_sessions : Ies → ℕ → Option (List SetupItem) → Option ℕ → RanUe → N3iwf S G → Step S G
  unfolding initial_end send_failure failed_list
  initial_sessions s p none ambr ue w = initial_end s p (ue, w)
  initial_sessions s p (some items) none ue w =
      send_failure (some ue) (failed_list items) (assign p ue w)
  initial_sessions s p (some items) (some ambr) ue w =
      setup_items env true p items
        (record ue { ambr = some ambr; setup_data = start_setup true ue.setup_data }, w)
      >>= λ r. initial_end s p r

  initial_ue : Ies → Option ℕ → Option ℕ → N3iwf S G → Step S G
  unfolding initial_sessions
  initial_ue s (some amf) (some ran) w = elim (ran_ue_pool_load ran w) as (λ _. Step S G) [
    | none ↦ ok (w, [])
    | some p ↦ do
      ue ← or_panic (lookup p w.ran_ues)
      let next =
            initial_sessions s p s.to_set_up s.ies_ambr
              (record ue { amf_ue_ngap_id = amf; ran_ue_ngap_id = ran }) w in
          if ue.amf_ue_ngap_id == amf then next else ok (w, [])
  ]
  initial_ue s (some amf) none w = ok (w, [])
  initial_ue s none ran w = ok (w, [])

  initial_context : Ies → List IeId → N3iwf S G → Step S G
  unfolding initial_ue
  initial_context s (i ∷ missing) w = do
    items ← or_panic s.to_set_up
    send_failure none (failed_list items) w
  initial_context s [] w = initial_ue s s.amf_id s.ran_id w

  unfoldable pub handle_initial_context_setup_request : Option ℕ → Message → N3iwf S G → Step S G
  unfolding initial_context read_ies
  handle_initial_context_setup_request amf msg w = elim (ies_of msg) [
    | none ↦ ok (w, [])
    | some ies ↦ let s = read_ies initial_context_ie no_ies ies in initial_context s s.missing w
  ]

  -- The event for the IKE server, if there are unactivated sessions.
  activate : ℕ → Option Bytes → List Sent → RanUe → N3iwf S G → List PduSession → Step S G
  activate p accept sent ue w [] = ok (assign p ue w, sent)
  activate p accept sent ue w (x ∷ xs) =
      elim (ike_spi_load ue.ran_ue_ngap_id w) as (λ _. Step S G) [
        | none ↦ ok (assign p ue w, sent)
        | some spi ↦ do
          nas ← or_panic accept
          ok (
            assign p (record ue { cached_nas = some (encap_nas_msg_to_envelope nas) }) w,
            sent
                ++ to_ike (create_pdu_session_evt spi (length ue.pdu_session_list) ue.setup_data)
                  ∷ [],
          )
      ]

  resource_sessions : ℕ → Option (List SetupItem) → List Sent → RanUe → N3iwf S G → Step S G
  unfolding activate last_nas
  resource_sessions p none sent ue w =
      let ue' = record ue {
        setup_data = record ue.setup_data { is_initial_context_setup = true };
      } in
      activate p none sent ue' w ue.setup_data.unactivated
  resource_sessions p (some items) sent ue w =
      setup_items env false p items (record ue { setup_data = start_setup false ue.setup_data }, w)
      >>= λ r. activate p (last_nas none items) sent r.0 r.1 r.0.setup_data.unactivated

  -- The NAS message of the request is written, if there is one.
  resource_nas : Option Bytes → ℕ → Option (List SetupItem) → RanUe → N3iwf S G → Step S G
  unfolding resource_sessions
  resource_nas none p list ue w = resource_sessions p list [] ue w
  resource_nas (some nas) p list ue w = elim ue.tcp_connection as (λ _. Step S G) [
    | none ↦ ok (w, [])
    | some connection ↦
        let sent = to_tcp connection (encap_nas_msg_to_envelope nas) ∷ [] in
        let next = resource_sessions p list sent ue w in
        if env.write connection (encap_nas_msg_to_envelope nas) then next else ok (w, sent)
  ]

  -- Without an IE for an ID there is no UE: its type assertion fails, or its context is nil.
  no_ue : Option Bytes → N3iwf S G → Step S G
  no_ue none w = panic
  no_ue (some nas) w = ok (w, [])

  resource_ue : Ies → Option ℕ → Option ℕ → N3iwf S G → Step S G
  unfolding resource_nas no_ue
  resource_ue s (some amf) (some ran) w = elim (ran_ue_pool_load ran w) as (λ _. Step S G) [
    | none ↦ ok (w, [])
    | some p ↦ do
      ue ← or_panic (lookup p w.ran_ues)
      let next = resource_nas s.nas p s.to_set_up ue w in
          if ue.amf_ue_ngap_id == amf then next else ok (w, [])
  ]
  resource_ue s (some amf) none w = no_ue s.nas w
  resource_ue s none ran w = no_ue s.nas w

  resource_setup : Ies → List IeId → N3iwf S G → Step S G
  unfolding resource_ue
  resource_setup s (i ∷ missing) w = ok (w, [])
  resource_setup s [] w = resource_ue s s.amf_id s.ran_id w

  unfoldable pub handle_pdu_session_resource_setup_request :
      Option ℕ → Message → N3iwf S G → Step S G
  unfolding resource_setup read_ies
  handle_pdu_session_resource_setup_request none msg w = ok (w, [])
  handle_pdu_session_resource_setup_request (some a) msg w = elim (ies_of msg) [
    | none ↦ ok (w, [])
    | some ies ↦ let s = read_ies resource_setup_ie no_ies ies in resource_setup s s.missing w
  ]
