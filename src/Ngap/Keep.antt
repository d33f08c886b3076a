-- ===== src/Ngap/Keep.antt =====
-- What a handler keeps, by way of the object that it loads.
use n3iwf.Prelude.{ℕ, ◌≡◌, refl, List, [], none, some, inl, inr, Option-cases}
use n3iwf.Prelude.Map.{lookup}
use n3iwf.Prelude.Outcome.{ok, After}
use n3iwf.Context.{RanUe, N3iwf}
use n3iwf.Context.Pools.{IsConsistent}
use n3iwf.Ngap.Types.{Sent, Step, with_ran_ue}

module _ {S G : Type 0} where
  -- The state after a step.
  abbrev pub Kept : N3iwf S G × List Sent → Type 0
  Kept r = IsConsistent r.0

  pub with_ran_ue-After :
      (id : ℕ) (w : N3iwf S G) (k : ℕ → RanUe → Step S G)
      → ((p : ℕ) (ue : RanUe) → lookup p w.ran_ues ≡ some ue → After Kept (k p ue))
      → IsConsistent w
      → After Kept (with_ran_ue id w k)
  unfolding with_ran_ue
  with_ran_ue-After id w k f c = elim (Option-cases (lookup id w.ran_ue_pool)) [
    | inl h ↦ rw (h, with_ran_ue) c
    | inr (p, h) ↦ elim (Option-cases (lookup p w.ran_ues)) [
      | inl g ↦ rw (h, g, with_ran_ue) tt
      | inr (ue, g) ↦ rw (h, g, with_ran_ue) (f p ue g)
    ]
  ]

  pub with_ran_ue-none :
      (id : ℕ) (w : N3iwf S G) (k : ℕ → RanUe → Step S G)
      → lookup id w.ran_ue_pool ≡ none
      → with_ran_ue id w k ≡ ok (w, [])
  unfolding with_ran_ue
  with_ran_ue-none id w k h = rw (h, with_ran_ue) refl

  pub with_ran_ue-some :
      (id p : ℕ) (ue : RanUe) (w : N3iwf S G) (k : ℕ → RanUe → Step S G)
      → lookup id w.ran_ue_pool ≡ some p
      → lookup p w.ran_ues ≡ some ue
      → with_ran_ue id w k ≡ k p ue
  unfolding with_ran_ue
  with_ran_ue-some id p ue w k h g = rw (h, g, with_ran_ue) refl
