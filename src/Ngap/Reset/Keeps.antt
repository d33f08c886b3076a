-- ===== src/Ngap/Reset/Keeps.antt =====
-- A reset keeps the pools consistent.
use n3iwf.Prelude.{ℕ, List, [], ◌∷◌, Option, none, some, inl, inr, Bool-cases, Option-cases}
use n3iwf.Prelude.Map.{Map, lookup}
use n3iwf.Prelude.Outcome.{ok, After, always, bind-After, or_panic-bind}
use n3iwf.Context.{N3iwf, remove}
use n3iwf.Context.Pools.{IsConsistent, remove-IsConsistent}
use n3iwf.Ngap.Keep.{Kept}
use n3iwf.Ngap.Message.{
  ResetType, ng_interface, part_of_ng_interface, other_reset_type, Message, ies_of, Ies, no_ies,
  reset_ie, read_ies,
}
use n3iwf.Ngap.Types.{Env, IeId}
use n3iwf.Ngap.Reset.{
  reset_item, is_closed, remove_ue, remove_all_related_ue, remove_if_found, reset_items, reset_by,
  reset, handle_ng_reset,
}

module _ {S G : Type 0} (env : Env S G) where
  remove_ue-IsConsistent :
      (p : ℕ) (w : N3iwf S G) → IsConsistent w → After (λ r. IsConsistent r.0) (remove_ue env p w)
  unfolding remove_ue
  remove_ue-IsConsistent p w c =
      or_panic-bind (λ r. IsConsistent r.0) (lookup p w.ran_ues) _
        (λ ue l.
          bind-After (λ r. IsConsistent r.0) (remove env.ids ue w)
            (λ w'. ok (w', is_closed env ue.tcp_connection)) (remove-IsConsistent env.ids ue w c)
            (λ v d. d))

  remove_all-IsConsistent :
      (a : ℕ) (list : Map ℕ) (w : N3iwf S G)
      → IsConsistent w
      → After IsConsistent (remove_all_related_ue env a list w)
  unfolding remove_all_related_ue
  remove_all-IsConsistent a [] w c = c
  remove_all-IsConsistent a ((id, p) ∷ list) w c =
      or_panic-bind IsConsistent (lookup a w.amfs) _ (λ amf l.
        elim (Option-cases (lookup id amf.ran_ue_list)) [
          | inl e ↦ rw e (remove_all-IsConsistent a list w c)
          | inr (q, e) ↦ rw e (
              bind-After {P = λ r. IsConsistent r.0} IsConsistent (remove_ue env q w) _
                (remove_ue-IsConsistent q w c)
                (λ r d. elim (Bool-cases r.1) [
                  | inl b ↦ rw b (remove_all-IsConsistent a list r.0 d)
                  | inr b ↦ rw b d
                ]))
        ])

  remove_if_found-IsConsistent :
      (found : Option ℕ) (w : N3iwf S G)
      → IsConsistent w
      → After IsConsistent (remove_if_found env found w)
  unfolding remove_if_found
  remove_if_found-IsConsistent none w c = c
  remove_if_found-IsConsistent (some p) w c =
      bind-After {P = λ r. IsConsistent r.0} IsConsistent (remove_ue env p w) (λ r. ok r.0)
        (remove_ue-IsConsistent p w c) (λ r d. d)

  reset_items-IsConsistent :
      (a : ℕ) (last : Option ℕ) (items : List (Option ℕ × Option ℕ)) (w : N3iwf S G)
      → IsConsistent w
      → After IsConsistent (reset_items env a last items w)
  unfolding reset_items
  reset_items-IsConsistent a last [] w c = c
  reset_items-IsConsistent a last ((amf, ran) ∷ items) w c =
      bind-After {P = λ f. Unit {0}} IsConsistent (reset_item a last amf ran w) _
        (always (reset_item a last amf ran w))
        (λ found _.
          bind-After IsConsistent (remove_if_found env found w) _
            (remove_if_found-IsConsistent found w c)
            (λ v d. reset_items-IsConsistent a found items v d))

  reset_by-Kept :
      (a : ℕ) (type : ResetType) (w : N3iwf S G)
      → IsConsistent w
      → After Kept (reset_by env a type w)
  unfolding reset_by
  reset_by-Kept a ng_interface w c = or_panic-bind Kept (lookup a w.amfs) _ (λ amf l.
      bind-After Kept (remove_all_related_ue env a amf.ran_ue_list w) _
        (remove_all-IsConsistent a amf.ran_ue_list w c) (λ v d. d))
  reset_by-Kept a (part_of_ng_interface none) w c = c
  reset_by-Kept a (part_of_ng_interface (some items)) w c =
      bind-After Kept (reset_items env a none items w) _ (reset_items-IsConsistent a none items w c)
        (λ v d. d)
  reset_by-Kept a other_reset_type w c = c

  reset-Kept :
      (a : ℕ) (s : Ies) (missing : List IeId) (w : N3iwf S G)
      → IsConsistent w
      → After Kept (reset env a s missing w)
  unfolding reset
  reset-Kept a s (i ∷ missing) w c = c
  reset-Kept a s [] w c =
      or_panic-bind Kept s.ies_cause _
        (λ cause e. or_panic-bind Kept s.ies_reset _ (λ type f. reset_by-Kept a type w c))

  pub ng_reset-Kept :
      (w : N3iwf S G)
      → IsConsistent w
      → (amf : Option ℕ) (msg : Message) → After Kept (handle_ng_reset env amf msg w)
  unfolding handle_ng_reset
  ng_reset-Kept w c none msg = c
  ng_reset-Kept w c (some a) msg = elim (Option-cases (ies_of msg)) [
    | inl e ↦ rw (e, handle_ng_reset) c
    | inr (ies, e) ↦
        rw (e, handle_ng_reset)
          (let s = read_ies reset_ie no_ies ies in reset-Kept a s s.missing w c)
  ]
