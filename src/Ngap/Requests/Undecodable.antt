-- ===== src/Ngap/Requests/Undecodable.antt =====
-- A request with a transfer that cannot be decoded.
use n3iwf.Prelude.{ℕ, ◌≡◌, refl, false, List, [], ◌∷◌, none, some, ==_iff}
use n3iwf.Prelude.Map.{lookup}
use n3iwf.Prelude.Outcome.{panic}
use n3iwf.Context.{RanUe, N3iwf, create_pdu_session}
use n3iwf.Ngap.Types.{Env}
use n3iwf.Ngap.Message.{SetupItem, Ie, amf_ue_ngap_id, ran_ue_ngap_id, setup_list_su_ie, read_ies}
use n3iwf.Ngap.Handlers.Release.{Stands}
use n3iwf.Ngap.Session.{start_setup, setup_item, setup_items}
use n3iwf.Ngap.Requests.{
  resource_sessions, resource_nas, resource_ue, resource_setup,
  handle_pdu_session_resource_setup_request,
}

-- A request for the UE `ran` of the AMF, with a list of sessions and no NAS message.
abbrev pub setup_request : ℕ → ℕ → List SetupItem → List Ie
setup_request amf ran items =
    amf_ue_ngap_id (some amf) ∷ ran_ue_ngap_id (some ran) ∷ setup_list_su_ie (some items) ∷ []

module _ {S G : Type 0} (env : Env S G) where
  empty_item :
      (p : ℕ) (x : SetupItem) (ue : RanUe) (w : N3iwf S G)
      → env.decode_transfer x.transfer ≡ []
      → lookup x.session_id ue.pdu_session_list ≡ none
      → setup_item env false p x (ue, w) ≡ panic
  unfolding setup_item create_pdu_session
  empty_item p x ue w e n = rw (n, setup_item, create_pdu_session, e) refl

  -- A PDU SESSION RESOURCE SETUP REQUEST for a UE that the gateway and the AMF know, whose first session is
  -- new to the UE and has a transfer of which the decoder leaves no IE: the handler panics.
  pub undecodable-panic :
      (a p ran : ℕ) (ue : RanUe) (w : N3iwf S G) (x : SetupItem) (xs : List SetupItem)
      → Stands ran p ue w
      → env.decode_transfer x.transfer ≡ []
      → lookup x.session_id ue.pdu_session_list ≡ none
      → handle_pdu_session_resource_setup_request env
          (some a)
          (some (some (some (setup_request ue.amf_ue_ngap_id ran (x ∷ xs)))))
          w
        ≡ panic
  unfolding handle_pdu_session_resource_setup_request resource_setup resource_ue resource_nas
      resource_sessions setup_items read_ies
  undecodable-panic a p ran ue w x xs stands e n =
      let known = (==_iff ue.amf_ue_ngap_id ue.amf_ue_ngap_id).1 refl in
      let begun = record ue { setup_data = start_setup false ue.setup_data } in
      rw (stands.in_pool, stands.in_heap, known, resource_ue) (rw (empty_item p x begun w e n) refl)
