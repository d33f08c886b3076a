-- ===== src/Ngap/Handlers/Release.antt =====
-- The release of a UE's context, in two events.
use n3iwf.Prelude.{ℕ, ◌≡◌, refl, ◌∙◌, ap, true, false, List, [], ◌∷◌, none, some, All, ==_self}
use n3iwf.Prelude.Map.{lookup, lookup-insert}
use n3iwf.Prelude.Outcome.{ok, panic}
use n3iwf.Context.{RanUe, N3iwf, err_nil, assign}
use n3iwf.Context.Remove.{TeidsOf, AmfKnown, no_amf, known, remove-Removed}
use n3iwf.Events.{type_of, send_ue_context_release_evt, send_ue_context_release_request_evt}
use n3iwf.Ngap.Types.{Env, ue_context_release_request, ue_context_release_complete}
use n3iwf.Ngap.Keep.{with_ran_ue-some}
use n3iwf.Ngap.Handlers.{
  handle_event, dispatch, release, handle_send_ue_context_release,
  handle_send_ue_context_release_request,
}

-- The UE of an ID, and where it is.
pub record Stands {S G : Type 0} (id p : ℕ) (ue : RanUe) (w : N3iwf S G) : Type 0 where
  pub in_pool : lookup id w.ran_ue_pool ≡ some p
  pub in_heap : lookup p w.ran_ues ≡ some ue

-- No trace of a UE in the pools.
pub record Gone {S G : Type 0} (id : ℕ) (teids : List ℕ) (w : N3iwf S G) : Type 0 where
  pub not_in_pool : lookup id w.ran_ue_pool ≡ none
  pub unmapped : lookup id w.ngap_id_to_ike_spi ≡ none
  pub freed : All (λ t. lookup t w.allocated_ue_teid ≡ none) teids

module _ {S G : Type 0} (env : Env S G) where
  -- The event is answered by the state of the release alone.
  release_event :
      (id p : ℕ) (ue : RanUe) (w : N3iwf S G)
      → Stands id p ue w
      → handle_event env w (send_ue_context_release_evt id) ≡ release env w p ue ue.ue_ctx_rel_state
  unfolding handle_event dispatch type_of handle_send_ue_context_release
  release_event id p ue w s = with_ran_ue-some id p ue w _ s.in_pool s.in_heap

  abbrev asked : ℕ → RanUe → N3iwf S G → N3iwf S G
  asked p ue w = assign p (record ue { ue_ctx_rel_state = true }) w

  asked-Stands :
      (id p : ℕ) (ue : RanUe) (w : N3iwf S G)
      → Stands id p ue w
      → Stands id p (record ue { ue_ctx_rel_state = true }) (asked p ue w)
  unfolding assign
  asked-Stands id p ue w s = record {
    in_pool = s.in_pool;
    in_heap = lookup-insert p p _ w.ran_ues ∙ rw (==_self p) refl;
  }

  AmfKnown-asked :
      (p : ℕ) (ue : RanUe) (w : N3iwf S G)
      → AmfKnown ue w
      → AmfKnown (record ue { ue_ctx_rel_state = true }) (asked p ue w)
  unfolding assign
  AmfKnown-asked p ue w (no_amf e) = no_amf e
  AmfKnown-asked p ue w (known a amf e l) = known a amf e l

  -- The second event.
  release_done :
      (id p : ℕ) (ue : RanUe) (teids : List ℕ) (w : N3iwf S G)
      → ue.ran_ue_ngap_id ≡ id
      → AmfKnown ue w
      → TeidsOf ue.pdu_session_list teids
      → (v : N3iwf S G) × (release env w p ue true ≡ ok (v, ue_context_release_complete ue ∷ []))
        × Gone id teids v
  unfolding release assign
  release_done id p ue teids w i k t =
      let (v, r, f) = remove-Removed env.ids ue teids w k t in
      (
        assign p (record ue { ue_ctx_rel_state = false }) v,
        rw r refl,
        record {
          not_in_pool = rw (← i) (f.pool ue.ran_ue_ngap_id ∙ rw (==_self ue.ran_ue_ngap_id) refl);
          unmapped = rw (← i) f.unmapped;
          freed = f.freed;
        },
      )

  -- For a UE in the pool that is not being released, the first event asks the AMF for the release
  -- and notes it. The second takes the UE out of the pool, with its map to an SPI and its TEIDs, and
  -- tells the AMF. Neither panics, if the AMF of the UE is known and each of its PDU sessions has a
  -- TEID.
  pub release_twice :
      (id p : ℕ) (ue : RanUe) (teids : List ℕ) (w : N3iwf S G)
      → Stands id p ue w
      → ue.ran_ue_ngap_id ≡ id
      → ue.ue_ctx_rel_state ≡ false
      → AmfKnown ue w
      → TeidsOf ue.pdu_session_list teids
      → (w1 w2 : N3iwf S G) × (handle_event env w (send_ue_context_release_evt id)
          ≡ ok (w1, ue_context_release_request ue ∷ []))
        × (handle_event env w1 (send_ue_context_release_evt id)
            ≡ ok (w2, ue_context_release_complete (record ue { ue_ctx_rel_state = true }) ∷ []))
        × Gone id teids w2
  unfolding release
  release_twice id p ue teids w s i n k t =
      let marked = record ue { ue_ctx_rel_state = true } in
      let (v, r, g) = release_done id p marked teids (asked p ue w) i (AmfKnown-asked p ue w k) t in
      (
        asked p ue w,
        v,
        release_event id p ue w s ∙ ap (release env w p ue) n,
        release_event id p marked (asked p ue w) (asked-Stands id p ue w s) ∙ r,
        g,
      )

  -- A release request with the error ErrNil, which the handler has a case for, panics for each UE in
  -- the pool: the cause is a nil pointer there.
  pub release_request_err_nil :
      (id p : ℕ) (ue : RanUe) (w : N3iwf S G)
      → Stands id p ue w
      → handle_event env w (send_ue_context_release_request_evt id err_nil) ≡ panic
  unfolding handle_event dispatch type_of handle_send_ue_context_release_request
  release_request_err_nil id p ue w s = with_ran_ue-some id p ue w _ s.in_pool s.in_heap
