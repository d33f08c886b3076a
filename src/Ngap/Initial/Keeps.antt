-- ===== src/Ngap/Initial/Keeps.antt =====
-- An EAP-5G packet keeps the pools consistent.
use n3iwf.Prelude.{ℕ, ◌≡◌, refl, Bool, true, false, Option, none, some, inl, inr, Bool-cases, ltb}
use n3iwf.Prelude.Bytes.{Bytes}
use n3iwf.Prelude.Map.{lookup}
use n3iwf.Prelude.Outcome.{
  Outcome, ok, err, panic, out_of_fuel, or_panic, After, bind-After, always, or_panic-After,
}
use n3iwf.Context.{RanUe, N3iwf, new_n3iwf_ran_ue}
use n3iwf.Context.Pools.{IsConsistent, assign-IsConsistent, new_n3iwf_ran_ue-IsConsistent}
use n3iwf.Context.Selection.{amf_selection}
use n3iwf.Eap5g.{AnParameters, Error}
use n3iwf.Events.{unmarshal_eap5g_data_evt}
use n3iwf.Ngap.Types.{Env}
use n3iwf.Ngap.Keep.{Kept, with_ran_ue-After}
use n3iwf.Ngap.Initial.{
  started, start_ue, selected_ue, answer, initial_ue, handle_unmarshal_eap5g_data,
}

module _ {S G : Type 0} (env : Env S G) where
  started-Kept :
      (spi : ℕ) (nas : Bytes) (cause : Option ℕ) (amf p : ℕ) (w : N3iwf S G) (ue : RanUe)
      → IsConsistent w
      → lookup p w.ran_ues ≡ some ue
      → After Kept (started env spi nas cause amf p w ue)
  unfolding started
  started-Kept spi nas none amf p w ue c l = assign-IsConsistent w p ue _ l refl c
  started-Kept spi nas (some value) amf p w ue c l = elim (Bool-cases (ltb 32767 value)) [
    | inl h ↦ rw h (assign-IsConsistent w p ue _ l refl c)
    | inr h ↦ rw h (assign-IsConsistent w p ue _ l refl c)
  ]

  selected_ue-Kept :
      (spi : ℕ) (nas : Bytes) (cause : Option ℕ) (w : N3iwf S G) (amf : Option ℕ)
      → IsConsistent w
      → After Kept (selected_ue env spi nas cause w amf)
  unfolding selected_ue start_ue
  selected_ue-Kept spi nas cause w none c = c
  selected_ue-Kept spi nas cause w (some amf) c =
      let v = (new_n3iwf_ran_ue env.ids w).1 in
      bind-After Kept (or_panic (new_n3iwf_ran_ue env.ids w).0) _ (always _) (λ p u.
        bind-After Kept (or_panic (lookup p v.ran_ues)) _
          (or_panic-After (λ ue. lookup p v.ran_ues ≡ some ue) (lookup p v.ran_ues) (λ ue l. l))
          (λ ue l.
            started-Kept spi nas cause amf p v ue (new_n3iwf_ran_ue-IsConsistent env.ids w c) l))

  initial_ue-Kept :
      (spi : ℕ) (nas : Bytes) (w : N3iwf S G) (params : Option (AnParameters G Bytes))
      → IsConsistent w
      → After Kept (initial_ue env spi nas w params)
  unfolding initial_ue
  initial_ue-Kept spi nas w none c = c
  initial_ue-Kept spi nas w (some params) c =
      bind-After Kept (amf_selection env.encode_guami params.guami params.selected_plmn w) _
        (always _) (λ amf u. selected_ue-Kept spi nas params.establishment_cause w amf c)

  answer-Kept :
      (spi : ℕ) (later : Bool) (id : ℕ) (w : N3iwf S G)
      (o : Outcome Error (Option (AnParameters G Bytes) × Bytes))
      → IsConsistent w
      → After Kept (answer env spi later id w o)
  unfolding answer
  answer-Kept spi later id w panic c = tt
  answer-Kept spi later id w out_of_fuel c = tt
  answer-Kept spi later id w (err e) c = c
  answer-Kept spi true id w (ok (params, nas)) c = with_ran_ue-After id w _ (λ p ue l. c) c
  answer-Kept spi false id w (ok (params, nas)) c = initial_ue-Kept spi nas w params c

  pub handle_unmarshal_eap5g_data-Kept :
      (w : N3iwf S G) (spi : ℕ) (coded : Bytes) (later : Bool) (id : ℕ)
      → IsConsistent w
      → After Kept (handle_unmarshal_eap5g_data env w (unmarshal_eap5g_data_evt spi coded later id))
  unfolding handle_unmarshal_eap5g_data
  handle_unmarshal_eap5g_data-Kept w spi coded later id c = answer-Kept spi later id w _ c
