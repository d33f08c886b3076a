-- ===== src/Ike/Delete.antt =====
-- The deletion of child SAs: deleteChildSAFromSPIList and handleDeletePayload of
-- internal/ike/handler.go.
--
-- A handler has as its result the state after it and what it answers. The numbers of the protocols are
-- those of package ike/message, and parameters.
pub mod Outbound
pub mod Listed
use n3iwf.Prelude.{
  ℕ, ◌+◌, ◌%◌, ◌^◌, Bool, true, false, List, [], ◌∷◌, ◌++◌, Option, none, some, ltb, ◌==◌,
  get_elem?, if◌then◌else◌,
}
use n3iwf.Prelude.Map.{Map, lookup}
use n3iwf.Prelude.Outcome.{Outcome, ok, err, panic, out_of_fuel, ◌>>=◌, index, or_panic}
use n3iwf.Sa.{ChildSa, IkeUe}
use n3iwf.Context.{Go, ngap_id_load}
use n3iwf.Context.Children.{
  Kernel, Host, Result, done, failed, SaError, no_pdu_session_id, no_ran_ue_ngap_id,
  unexpected_protocol, attempt, delete_child_sa, remove_ike_ue,
}
use n3iwf.Events.{NgapEvt, send_ue_context_release_evt, send_pdu_session_resource_release_evt}

-- The first child SA with the outbound SPI.
unfoldable pub find_outbound : ℕ → Map ChildSa → Option ChildSa
find_outbound spi [] = none
find_outbound spi ((i, c) ∷ cs) =
    let rest = find_outbound spi cs in if c.outbound_spi == spi then some c else rest

module _ {S G K : Type 0} (netlink : Kernel K) where
  -- The two lists are deleteSPIs and deletePduIds so far.
  unfoldable pub delete_child_sa_from_spi_list :
      ℕ → List ℕ → List ℕ → List ℕ → Host S G K → Go (Host S G K × Result SaError (List ℕ × List ℕ))
  delete_child_sa_from_spi_list u [] spis ids h = ok (h, done (spis, ids))
  delete_child_sa_from_spi_list u (spi ∷ rest) spis ids h = do
    ue ← or_panic (lookup u h.context.ike_ues)
    elim (find_outbound spi ue.child_security_association) [
      | none ↦ delete_child_sa_from_spi_list u rest spis ids h
      | some c ↦ elim (get_elem? c.pdu_session_ids 0) [
        | none ↦ ok (h, failed no_pdu_session_id)
        | some id ↦ attempt (delete_child_sa netlink u c h) (λ h _.
            delete_child_sa_from_spi_list u rest (spis ++ c.inbound_spi ∷ []) (ids ++ id ∷ []) h)
      ]
    ]

  module _ (release : Option ℕ → S → Option S) (type_ike type_esp : ℕ) where
    -- A case of the switch: the SPIs of the response, if it has a delete payload, and the event.
    delete_ike :
        ℕ → ℕ → Bool → Host S G K → Go (Host S G K × Result SaError (Option (List ℕ) × NgapEvt))
    delete_ike u id true h = ok (h, done (none, send_ue_context_release_evt id))
    delete_ike u id false h =
        attempt (remove_ike_ue netlink release u h)
          (λ h _. ok (h, done (none, send_ue_context_release_evt id)))

    delete_esp :
        ℕ
        → ℕ
        → List ℕ
        → Bool
        → Host S G K
        → Go (Host S G K × Result SaError (Option (List ℕ) × NgapEvt))
    unfolding delete_child_sa_from_spi_list
    delete_esp u id spis true h = ok (h, done (none, send_pdu_session_resource_release_evt id []))
    delete_esp u id spis false h =
        attempt (delete_child_sa_from_spi_list u spis [] [] h)
          (λ h r. ok (h, done (some r.0, send_pdu_session_resource_release_evt id r.1)))

    -- handleDeletePayload for the IKE SA at `a`.
    unfoldable pub handle_delete_payload :
        ℕ
        → List ℕ
        → Bool
        → ℕ
        → Host S G K
        → Go (Host S G K × Result SaError (Option (List ℕ) × NgapEvt))
    unfolding delete_ike delete_esp
    handle_delete_payload protocol spis is_response a h = do
      sa ← or_panic (lookup a h.context.ike_sas)
      u ← or_panic sa.ike_ue
      ue ← or_panic (lookup u h.context.ike_ues)
      b ← or_panic ue.ike_security_association
      own ← or_panic (lookup b h.context.ike_sas)
      elim (ngap_id_load own.local_spi h.context) [
        | none ↦ ok (h, failed no_ran_ue_ngap_id)
        | some id ↦
            let ike = delete_ike u id is_response h in
            let esp = delete_esp u id spis is_response h in
            let other = ok (h, failed unexpected_protocol) in
            if protocol == type_ike then ike else if protocol == type_esp then esp else other
      ]
