-- ===== src/Context/Teid.antt =====
-- The TEIDs of the UEs: NewTEID and DeleteTEID.
use n3iwf.Prelude.{
  ℕ, ◌≤◌, ◌≡◌, ◌≢◌, refl, none, some, inl, inr, ◌==◌, ==_iff, if◌then◌else◌, arith, Bool-cases,
  Option-cases, ltb,
}
use n3iwf.Prelude.Map.{lookup, lookup-delete, lookup-insert}
use n3iwf.Context.{IdGenerator, N3iwf, new_teid, delete_teid}

-- What package idgenerator documents: an ID that is allocated is in use from then on, until it is
-- freed, and no ID in use is allocated.
pub record GeneratorLaws {S : Type 0} (ids : IdGenerator S) : Type 1 where
  pub InUse : S → ℕ → Type 0
  pub fresh : (s s' : S) (i : ℕ) → ids.allocate s ≡ some (i, s') → ¬ InUse s i
  pub taken : (s s' : S) (i : ℕ) → ids.allocate s ≡ some (i, s') → InUse s' i
  pub kept : (s s' : S) (i j : ℕ) → ids.allocate s ≡ some (i, s') → InUse s j → InUse s' j
  pub kept_by_free : (s : S) (i j : ℕ) → i ≢ j → InUse s j → InUse (ids.free_id i s) j

module _ {S G : Type 0} (ids : IdGenerator S) (laws : GeneratorLaws ids) where
  -- Each TEID that leads to a UE is in use.
  unfoldable pub TeidsInUse : N3iwf S G → Type 0
  TeidsInUse w = (t p : ℕ) → lookup t w.allocated_ue_teid ≡ some p → laws.InUse w.teids t

  -- The answer of NewTEID for the UE at `p`: 0 and no entry, or a TEID that led nowhere before, and
  -- leads to the UE now. All other TEIDs lead where they did.
  pub data NewTeid (p : ℕ) (w : N3iwf S G) : ℕ × N3iwf S G → Type 0 where
    failed : {v : N3iwf S G} → v.allocated_ue_teid ≡ w.allocated_ue_teid → NewTeid p w (0, v)
    given :
        {t : ℕ} {v : N3iwf S G}
        → t ≤ 4294967295
        → lookup t w.allocated_ue_teid ≡ none
        → ((j : ℕ)
            → lookup j v.allocated_ue_teid
              ≡ (if t == j then some p else lookup j w.allocated_ue_teid))
        → NewTeid p w (t, v)

  not_in_use :
      (w : N3iwf S G) (t : ℕ)
      → TeidsInUse w
      → ¬ laws.InUse w.teids t
      → lookup t w.allocated_ue_teid ≡ none
  unfolding TeidsInUse
  not_in_use w t h n = elim (Option-cases (lookup t w.allocated_ue_teid)) [
    | inl e ↦ e
    | inr (p, e) ↦ absurd (n (h t p e))
  ]

  -- NewTEID never gives a UE a TEID that leads to a UE already, and keeps every TEID that leads to a
  -- UE in use.
  pub new_teid-NewTeid :
      (p : ℕ) (w : N3iwf S G)
      → TeidsInUse w
      → NewTeid p w (new_teid ids p w) × TeidsInUse (new_teid ids p w).1
  unfolding new_teid TeidsInUse
  new_teid-NewTeid p w h = elim (Option-cases (ids.allocate w.teids)) [
    | inl e ↦ rw (e, new_teid) (failed refl, h)
    | inr ((t, s), e) ↦ elim (Bool-cases (ltb 4294967295 t)) [
      | inl b ↦ rw (e, b, new_teid) (failed refl, λ j q l. laws.kept w.teids s t j e (h j q l))
      | inr b ↦
          rw (e, b, new_teid)
            (
              given (ground arith) (not_in_use w t h (laws.fresh w.teids s t e))
                  (λ j. lookup-insert t j p w.allocated_ue_teid),
              λ j q l. elim (Bool-cases (t == j)) [
                | inl x ↦ rw (← (==_iff t j).0 x) (laws.taken w.teids s t e)
                | inr x ↦
                    laws.kept w.teids s t j e
                      (h j q (ground (arith, lookup-insert t j p w.allocated_ue_teid)))
              ],
            )
    ]
  ]

  -- After DeleteTEID the TEID leads nowhere, the others lead where they did, and those that lead to a
  -- UE are still in use.
  pub delete_teid-TeidsInUse :
      (t : ℕ) (w : N3iwf S G)
      → TeidsInUse w
      → ((j : ℕ)
          → lookup j (delete_teid ids t w).allocated_ue_teid
            ≡ (if t == j then none else lookup j w.allocated_ue_teid))
        × TeidsInUse (delete_teid ids t w)
  unfolding delete_teid TeidsInUse
  delete_teid-TeidsInUse t w h = (
    (λ j. lookup-delete t j w.allocated_ue_teid),
    λ j q l. elim (Bool-cases (t == j)) [
      | inl x ↦ absurd (ground (arith, lookup-delete t j w.allocated_ue_teid))
      | inr x ↦
          laws.kept_by_free w.teids t j (λ e. ground (arith, ==_iff t j))
            (h j q (ground (arith, lookup-delete t j w.allocated_ue_teid)))
    ],
  )
