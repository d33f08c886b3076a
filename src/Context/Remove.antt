-- ===== src/Context/Remove.antt =====
-- What Remove leaves of a UE.
use n3iwf.Prelude.{
  All, ℕ, ◌≡◌, refl, ◌∙◌, List, [], ◌∷◌, none, some, inl, inr, ◌==◌, ==_self, if◌then◌else◌, arith,
  Option-cases,
}
use n3iwf.Prelude.Map.{Map, lookup, delete, insert, lookup-delete}
use n3iwf.Prelude.Outcome.{ok, After, bind-After}
use n3iwf.Context.{
  IdGenerator, GtpConnectionInfo, PduSession, RanUe, Amf, N3iwf, delete_ran_ue, delete_teid,
  delete_teids, detach_amf, remove,
}

module _ {S G : Type 0} (ids : IdGenerator S) where
  delete_teids-ran_ues :
      (sessions : Map PduSession) (w : N3iwf S G)
      → After (λ v. v.ran_ues ≡ w.ran_ues) (delete_teids ids sessions w)
  unfolding delete_teids delete_teid
  delete_teids-ran_ues [] w = refl
  delete_teids-ran_ues ((id, session) ∷ sessions) w = elim (Option-cases session.gtp_conn_info) [
    | inl h ↦ rw h tt
    | inr (info, h) ↦ rw h (delete_teids-ran_ues sessions (delete_teid ids info.incoming_teid w))
  ]

  detach_amf-ran_ues :
      (ue : RanUe) (w : N3iwf S G) → After (λ v. v.ran_ues ≡ w.ran_ues) (detach_amf ids ue w)
  unfolding detach_amf
  detach_amf-ran_ues ue w = elim (Option-cases ue.amf) [
    | inl h ↦ rw h refl
    | inr (a, h) ↦ elim (Option-cases (lookup a w.amfs)) [
      | inl g ↦ rw (h, g) tt
      | inr (amf, g) ↦ rw (h, g) refl
    ]
  ]

  -- Remove leaves the objects of the heap as they are.
  pub remove-ran_ues :
      (ue : RanUe) (w : N3iwf S G) → After (λ v. v.ran_ues ≡ w.ran_ues) (remove ids ue w)
  unfolding remove delete_ran_ue
  remove-ran_ues ue w =
      bind-After (λ v. v.ran_ues ≡ w.ran_ues) (detach_amf ids ue w) _ (detach_amf-ran_ues ue w)
        (λ v e.
          rw (← e) (delete_teids-ran_ues ue.pdu_session_list (delete_ran_ue ue.ran_ue_ngap_id v)))

-- The incoming TEIDs of PDU sessions that all have one.
pub data TeidsOf : Map PduSession → List ℕ → Type 0 where
  no_sessions : TeidsOf [] []
  one_more :
      {id : ℕ} {info : GtpConnectionInfo} {session : PduSession} {sessions : Map PduSession}
      {teids : List ℕ}
      → session.gtp_conn_info ≡ some info
      → TeidsOf sessions teids
      → TeidsOf ((id, session) ∷ sessions) (info.incoming_teid ∷ teids)

-- The AMF of a UE, if it has one, is an object of the heap.
pub data AmfKnown {S G : Type 0} (ue : RanUe) (w : N3iwf S G) : Type 0 where
  no_amf : ue.amf ≡ none → AmfKnown ue w
  known : (a : ℕ) (amf : Amf G) → ue.amf ≡ some a → lookup a w.amfs ≡ some amf → AmfKnown ue w

-- `v` is `w` without the UE: out of its pool, out of the map to the SPIs, and without its TEIDs.
pub record Removed {S G : Type 0} (ue : RanUe) (teids : List ℕ) (w v : N3iwf S G) : Type 0 where
  pub pool :
      (j : ℕ)
      → lookup j v.ran_ue_pool ≡ (if ue.ran_ue_ngap_id == j then none else lookup j w.ran_ue_pool)
  pub unmapped : lookup ue.ran_ue_ngap_id v.ngap_id_to_ike_spi ≡ none
  pub freed : All (λ t. lookup t v.allocated_ue_teid ≡ none) teids
  pub objects : v.ran_ues ≡ w.ran_ues

-- The state after the loop over the sessions.
record Freed {S G : Type 0} (teids : List ℕ) (w v : N3iwf S G) : Type 0 where
  same_pool : v.ran_ue_pool ≡ w.ran_ue_pool
  same_spis : v.ngap_id_to_ike_spi ≡ w.ngap_id_to_ike_spi
  same_objects : v.ran_ues ≡ w.ran_ues
  gone : All (λ t. lookup t v.allocated_ue_teid ≡ none) teids
  stays_gone : (t : ℕ) → lookup t w.allocated_ue_teid ≡ none → lookup t v.allocated_ue_teid ≡ none

module _ {S G : Type 0} (ids : IdGenerator S) where
  delete_teids-Freed :
      (sessions : Map PduSession) (teids : List ℕ) (w : N3iwf S G)
      → TeidsOf sessions teids
      → (v : N3iwf S G) × (delete_teids ids sessions w ≡ ok v) × Freed teids w v
  unfolding delete_teids delete_teid
  delete_teids-Freed _ _ w no_sessions = (
    w,
    refl,
    record {
      same_pool = refl;
      same_spis = refl;
      same_objects = refl;
      gone = tt;
      stays_gone = λ t h. h;
    },
  )
  delete_teids-Freed _ _ w (one_more {id} {info} {session} {sessions} {teids} e ts) =
      let teid = info.incoming_teid in
      let (v, r, f) = delete_teids-Freed sessions teids (delete_teid ids teid w) ts in
      let cut : (t : ℕ)
          → lookup t (delete teid w.allocated_ue_teid)
            ≡ (if teid == t then none else lookup t w.allocated_ue_teid) =
        λ t. lookup-delete teid t w.allocated_ue_teid in
      (
        v,
        rw e r,
        record {
          same_pool = f.same_pool;
          same_spis = f.same_spis;
          same_objects = f.same_objects;
          gone = (f.stays_gone teid (cut teid ∙ rw (==_self teid) refl), f.gone);
          stays_gone = λ t h. f.stays_gone t (ground (arith, cut t));
        },
      )

  detach_amf-ok :
      (ue : RanUe) (w : N3iwf S G)
      → AmfKnown ue w
      → (amfs : Map (Amf G)) × (detach_amf ids ue w ≡ ok (record w { amfs = amfs }))
  unfolding detach_amf
  detach_amf-ok ue w (no_amf e) = (w.amfs, rw e refl)
  detach_amf-ok ue w (known a amf e l) = (
    insert a (record amf { ran_ue_list = delete ue.ran_ue_ngap_id amf.ran_ue_list }) w.amfs,
    rw (e, l) refl,
  )

  -- Remove ends, and the UE is gone.
  pub remove-Removed :
      (ue : RanUe) (teids : List ℕ) (w : N3iwf S G)
      → AmfKnown ue w
      → TeidsOf ue.pdu_session_list teids
      → (v : N3iwf S G) × (remove ids ue w ≡ ok v) × Removed ue teids w v
  unfolding remove delete_ran_ue
  remove-Removed ue teids w k t =
      let (amfs, d) = detach_amf-ok ue w k in
      let u = delete_ran_ue ue.ran_ue_ngap_id (record w { amfs = amfs }) in
      let (v, r, f) = delete_teids-Freed ue.pdu_session_list teids u t in
      (
        v,
        rw d r,
        record {
          pool = λ j. rw f.same_pool (lookup-delete ue.ran_ue_ngap_id j w.ran_ue_pool);
          unmapped = rw f.same_spis (
              lookup-delete ue.ran_ue_ngap_id ue.ran_ue_ngap_id w.ngap_id_to_ike_spi
              ∙ rw (==_self ue.ran_ue_ngap_id) refl);
          freed = f.gone;
          objects = f.same_objects;
        },
      )
