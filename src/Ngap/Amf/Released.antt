-- ===== src/Ngap/Amf/Released.antt =====
-- What the release commands of the AMF release.
use n3iwf.Prelude.{
  All, ap, ℕ, ◌≡◌, ◌≢◌, refl, ◌∙◌, true, List, [], ◌∷◌, none, some, ◌==◌, ==_iff, ==_self, arith,
}
use n3iwf.Prelude.Map.{lookup, lookup-delete}
use n3iwf.Prelude.Outcome.{ok, bind-ok, bind-some}
use n3iwf.Context.{RanUe, Amf, N3iwf, assign, ike_spi_load, delete_pdu_session}
use n3iwf.Context.Remove.{TeidsOf, AmfKnown, no_amf, known, remove-Removed}
use n3iwf.Events.{ike_delete_request_evt, send_child_sa_delete_request_evt}
use n3iwf.Ngap.Types.{Env, to_ike, ue_context_release_complete}
use n3iwf.Ngap.Handlers.Release.{Stands, Gone}
use n3iwf.Ngap.Message.{
  Ie, ue_ngap_id_pair, no_ies, release_command_ie, resource_release_ie, read_ies,
}
use n3iwf.Ngap.Amf.{
  find_ue, found_ue, released, release_ike_ue_and_ran_ue, context_release,
  handle_ue_context_release_command, delete_listed, release_listed, resource_release_ue,
  resource_release, handle_pdu_session_resource_release_command,
}

delete_listed-none :
    (ids : List ℕ) (ue : RanUe) (j : ℕ)
    → lookup j ue.pdu_session_list ≡ none
    → lookup j (delete_listed ids ue).pdu_session_list ≡ none
unfolding delete_listed delete_pdu_session
delete_listed-none [] ue j e = e
delete_listed-none (id ∷ ids) ue j e =
    delete_listed-none ids (delete_pdu_session id ue) j
      (ground (arith, lookup-delete id j ue.pdu_session_list))

delete_listed-All :
    (ids : List ℕ) (ue : RanUe)
    → All (λ id. lookup id (delete_listed ids ue).pdu_session_list ≡ none) ids
unfolding delete_listed delete_pdu_session
delete_listed-All [] ue = tt
delete_listed-All (id ∷ ids) ue = (
  delete_listed-none ids (delete_pdu_session id ue) id
      (ground (arith, lookup-delete id id ue.pdu_session_list)),
  delete_listed-All ids (delete_pdu_session id ue),
)

delete_listed_others :
    (ids : List ℕ) (ue : RanUe) (j : ℕ)
    → All (λ i. i ≢ j) ids
    → lookup j (delete_listed ids ue).pdu_session_list ≡ lookup j ue.pdu_session_list
unfolding delete_listed delete_pdu_session
delete_listed_others [] ue j n = refl
delete_listed_others (id ∷ ids) ue j (n, ns) =
    delete_listed_others ids (delete_pdu_session id ue) j ns
    ∙ ground (arith, lookup-delete id j ue.pdu_session_list, ==_iff id j)

-- The object `after` of a UE is `ue` with the sessions `ids` on their way out.
pub record Releasing (ids : List ℕ) (ue after : RanUe) : Type 0 where
  pub gone : All (λ id. lookup id after.pdu_session_list ≡ none) ids
  pub others :
      (j : ℕ)
      → All (λ i. i ≢ j) ids
      → lookup j after.pdu_session_list ≡ lookup j ue.pdu_session_list
  pub ongoing : after.pdu_sess_res_rel_state ≡ true
  pub listed : after.pdu_session_release_list ≡ ids

module _ {S G : Type 0} where
  release_listed-Releasing :
      (ran p spi : ℕ) (ue : RanUe) (ids : List ℕ) (w : N3iwf S G)
      → ike_spi_load ran w ≡ some spi
      → (after : RanUe) × (release_listed ran p ue ids w
          ≡ ok (assign p after w, to_ike (send_child_sa_delete_request_evt spi ids) ∷ []))
        × Releasing ids ue after
  unfolding release_listed
  release_listed-Releasing ran p spi ue ids w e = (
    record (delete_listed ids ue) { pdu_sess_res_rel_state = true; pdu_session_release_list = ids },
    rw (e, release_listed) refl,
    record {
      gone = delete_listed-All ids ue;
      others = delete_listed_others ids ue;
      ongoing = refl;
      listed = refl;
    },
  )

  -- A PDU session resource release command with all its IEs, for a UE in the pool with that AMF UE
  -- NGAP ID and an SPI: the UE loses the listed sessions and no others, remembers the list for the
  -- response, and the IKE server is asked once to delete their child SAs. The TEIDs of the sessions
  -- still lead to the UE.
  pub release_command-Releasing :
      (a ran amf p spi : ℕ) (ids : List ℕ) (ies : List Ie) (ue : RanUe) (w : N3iwf S G)
      → let s = read_ies resource_release_ie no_ies ies in
        s.missing ≡ []
        → s.ran_id ≡ some ran
        → s.amf_id ≡ some amf
        → s.to_release ≡ some ids
        → Stands ran p ue w
        → ue.amf_ue_ngap_id ≡ amf
        → ike_spi_load ran w ≡ some spi
        → (after : RanUe) × (handle_pdu_session_resource_release_command
              (some a)
              (some (some (some ies)))
              w
            ≡ ok (assign p after w, to_ike (send_child_sa_delete_request_evt spi ids) ∷ []))
          × Releasing ids ue after
          × ((assign p after w).allocated_ue_teid ≡ w.allocated_ue_teid)
  unfolding handle_pdu_session_resource_release_command resource_release resource_release_ue assign
  release_command-Releasing a ran amf p spi ids ies ue w missing ran_id amf_id list stands same e =
      let s = read_ies resource_release_ie no_ies ies in
      let b : ue.amf_ue_ngap_id == amf ≡ true = (==_iff ue.amf_ue_ngap_id amf).1 same in
      let (after, r, x) = release_listed-Releasing ran p spi ue ids w e in
      (
        after,
        ap (λ m. resource_release a s m w) missing
            ∙ (bind-some _ ran_id
                ∙ rw stands.in_pool (
                    bind-some _ stands.in_heap
                    ∙ (bind-some _ amf_id ∙ rw (b, resource_release_ue) (bind-some _ list ∙ r)))),
        x,
        refl,
      )

AmfKnown-assign :
    {S G : Type 0} (p : ℕ) (ue : RanUe) (w : N3iwf S G)
    → AmfKnown ue w
    → AmfKnown
        (record ue { ue_ctx_rel_state = true })
        (assign p (record ue { ue_ctx_rel_state = true }) w)
unfolding assign
AmfKnown-assign p ue w (no_amf e) = no_amf e
AmfKnown-assign p ue w (known a amf e l) = known a amf e l

module _ {S G : Type 0} (env : Env S G) where
  -- A UE context release command of an AMF with the pair of IDs of a UE in the pool, which has an SPI,
  -- whose AMF, if it has one, is known, and whose PDU sessions all have a TEID: the UE is out of the
  -- pool, out of the map to the SPIs, and without its TEIDs. The AMF is told that the release is
  -- complete, and the IKE server is asked to delete the IKE SA.
  pub release_command-Gone :
      (a x ran p spi : ℕ) (teids : List ℕ) (ies : List Ie) (amf : Amf G) (ue : RanUe)
      (w : N3iwf S G)
      → let s = read_ies release_command_ie no_ies ies in
        s.missing ≡ []
        → s.ids ≡ some (ue_ngap_id_pair x ran)
        → lookup a w.amfs ≡ some amf
        → Stands ran p ue w
        → ue.ran_ue_ngap_id ≡ ran
        → ike_spi_load ran w ≡ some spi
        → AmfKnown ue w
        → TeidsOf ue.pdu_session_list teids
        → (v : N3iwf S G) × (handle_ue_context_release_command env
              (some a)
              (some (some (some ies)))
              w
            ≡ ok (
              v,
              ue_context_release_complete (record ue { ue_ctx_rel_state = true })
                  ∷ to_ike (ike_delete_request_evt spi)
                  ∷ [],
            ))
          × Gone ran teids v
  unfolding handle_ue_context_release_command context_release find_ue found_ue released
      release_ike_ue_and_ran_ue assign
  release_command-Gone a x ran p spi teids ies amf ue w missing ids known_amf stands same e k t =
      let s = read_ies release_command_ie no_ies ies in
      let ue' = record ue { ue_ctx_rel_state = true } in
      let w' = assign p ue' w in
      let (v, r, f) = remove-Removed env.ids ue' teids w' (AmfKnown-assign p ue w k) t in
      let found : find_ue amf.ran_ue_list (ue_ngap_id_pair x ran) w ≡ ok (some p) =
        rw (stands.in_pool, find_ue) refl in
      let mapped : ike_spi_load ue'.ran_ue_ngap_id w' ≡ some spi =
        ap (λ i. lookup i w.ngap_id_to_ike_spi) same ∙ e in
      let gone : release_ike_ue_and_ran_ue env ue' w'
          ≡ ok (v, to_ike (ike_delete_request_evt spi) ∷ []) =
        bind-ok _ r ∙ rw mapped refl in
      (
        v,
        ap (λ m. context_release env a s.ids m w) missing
            ∙ (bind-some _ ids
                ∙ (bind-some _ known_amf
                    ∙ (bind-ok _ found ∙ (bind-some _ stands.in_heap ∙ bind-ok _ gone)))),
        record {
          not_in_pool =
              rw (← same) (f.pool ue.ran_ue_ngap_id ∙ rw (==_self ue.ran_ue_ngap_id) refl);
          unmapped = rw (← same) f.unmapped;
          freed = f.freed;
        },
      )
