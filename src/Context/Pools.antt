-- ===== src/Context/Pools.antt =====
-- The pool of the RAN UEs and the heap agree.
use n3iwf.Prelude.{
  ℕ, ◌<◌, ◌≡◌, refl, [], ◌∷◌, some, inl, inr, ◌==◌, arith, Bool-cases, ==_iff, Option-cases,
}
use n3iwf.Prelude.Map.{Map, lookup, lookup-delete, lookup-insert}
use n3iwf.Prelude.Outcome.{After, bind-After}
use n3iwf.Context.{
  IdGenerator, PduSession, RanUe, N3iwf, init, assign, delete_ran_ue, new_n3iwf_ran_ue, delete_teid,
  delete_teids, detach_amf, remove,
}

-- Each pointer of the pool leads to the UE of that ID, and the next pointer is not in use.
pub record IsConsistent {S G : Type 0} (w : N3iwf S G) : Type 0 where
  pub leads :
      (id p : ℕ)
      → lookup id w.ran_ue_pool ≡ some p
      → (ue : RanUe) × (lookup p w.ran_ues ≡ some ue) × (ue.ran_ue_ngap_id ≡ id)
  pub bounded : (p : ℕ) (ue : RanUe) → lookup p w.ran_ues ≡ some ue → p < w.next_pointer

module _ {S G : Type 0} where
  pub assign-IsConsistent :
      (w : N3iwf S G) (p : ℕ) (ue after : RanUe)
      → lookup p w.ran_ues ≡ some ue
      → after.ran_ue_ngap_id ≡ ue.ran_ue_ngap_id
      → IsConsistent w
      → IsConsistent (assign p after w)
  unfolding assign
  assign-IsConsistent w p ue after l e c = record {
    leads = λ id q h.
        let (u, lu, eu) = c.leads id q h in
        elim (Bool-cases (p == q)) [
          | inl s ↦
              (after, rw (lookup-insert p q after w.ran_ues, s) refl, ground (arith, ==_iff p q))
          | inr s ↦ (u, rw (lookup-insert p q after w.ran_ues, s) lu, eu)
        ];
    bounded = λ q u h. elim (Bool-cases (p == q)) [
      | inl s ↦ ground (arith, ==_iff p q, c.bounded p ue l)
      | inr s ↦ c.bounded q u (ground (arith, lookup-insert p q after w.ran_ues))
    ];
  }

  pub delete_ran_ue-IsConsistent :
      (w : N3iwf S G) (id : ℕ) → IsConsistent w → IsConsistent (delete_ran_ue id w)
  unfolding delete_ran_ue
  delete_ran_ue-IsConsistent w id c = record {
    leads = λ j p h. c.leads j p (ground (arith, lookup-delete id j w.ran_ue_pool));
    bounded = c.bounded;
  }

  module _ (ids : IdGenerator S) where
    pub new_n3iwf_ran_ue-IsConsistent :
        (w : N3iwf S G) → IsConsistent w → IsConsistent (new_n3iwf_ran_ue ids w).1
    unfolding new_n3iwf_ran_ue
    new_n3iwf_ran_ue-IsConsistent w c = elim (Option-cases (ids.allocate w.ran_ue_ngap_ids)) [
      | inl h ↦ rw (h, new_n3iwf_ran_ue) c
      | inr ((id, s), h) ↦
          rw (h, new_n3iwf_ran_ue)
            (record {
              leads = λ j p l. elim (Bool-cases (id == j)) [
                | inl e ↦
                    let q : p ≡ w.next_pointer =
                      ground (arith, lookup-insert id j w.next_pointer w.ran_ue_pool) in
                    (
                      init id,
                      rw (q, lookup-insert w.next_pointer w.next_pointer (init id) w.ran_ues)
                          (ground arith),
                      ground (arith, ==_iff id j),
                    )
                | inr e ↦
                    let (u, lu, eu) =
                      c.leads j p
                        (ground (arith, lookup-insert id j w.next_pointer w.ran_ue_pool)) in
                    (
                      u,
                      ground (
                        arith,
                        lookup-insert w.next_pointer p (init id) w.ran_ues,
                        c.bounded p u,
                      ),
                      eu,
                    )
              ];
              bounded = λ p u l. elim (Bool-cases (w.next_pointer == p)) [
                | inl e ↦ ground (arith, ==_iff w.next_pointer p)
                | inr e ↦
                    ground
                      (arith, lookup-insert w.next_pointer p (init id) w.ran_ues, c.bounded p u)
              ];
            })
    ]

    delete_teids-IsConsistent :
        (sessions : Map PduSession) (w : N3iwf S G)
        → IsConsistent w
        → After IsConsistent (delete_teids ids sessions w)
    unfolding delete_teids delete_teid
    delete_teids-IsConsistent [] w c = c
    delete_teids-IsConsistent ((id, session) ∷ sessions) w c =
        elim (Option-cases session.gtp_conn_info) [
          | inl h ↦ rw h tt
          | inr (info, h) ↦ rw h (
              delete_teids-IsConsistent sessions (delete_teid ids info.incoming_teid w)
                (record { leads = c.leads; bounded = c.bounded }))
        ]

    detach_amf-IsConsistent :
        (ue : RanUe) (w : N3iwf S G) → IsConsistent w → After IsConsistent (detach_amf ids ue w)
    unfolding detach_amf
    detach_amf-IsConsistent ue w c = elim (Option-cases ue.amf) [
      | inl h ↦ rw h c
      | inr (a, h) ↦ elim (Option-cases (lookup a w.amfs)) [
        | inl g ↦ rw (h, g) tt
        | inr (amf, g) ↦ rw (h, g) (record { leads = c.leads; bounded = c.bounded })
      ]
    ]

    pub remove-IsConsistent :
        (ue : RanUe) (w : N3iwf S G) → IsConsistent w → After IsConsistent (remove ids ue w)
    unfolding remove
    remove-IsConsistent ue w c =
        bind-After IsConsistent (detach_amf ids ue w) _ (detach_amf-IsConsistent ue w c) (λ v d.
          delete_teids-IsConsistent ue.pdu_session_list (delete_ran_ue ue.ran_ue_ngap_id v)
            (delete_ran_ue-IsConsistent v ue.ran_ue_ngap_id d))
