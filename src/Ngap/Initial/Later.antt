-- ===== src/Ngap/Initial/Later.antt =====
-- A later message of a UE that is not in the pool.
use n3iwf.Prelude.{ℕ, ◌≡◌, ◌≢◌, refl, ◌⊎◌, inl, inr, true, [], Option, none, All}
use n3iwf.Prelude.Bytes.{Bytes, IsByte}
use n3iwf.Prelude.Map.{lookup}
use n3iwf.Prelude.Outcome.{Outcome, ok, err, panic, out_of_fuel}
use n3iwf.Context.{N3iwf}
use n3iwf.Eap5g.{Error, AnParameters, unmarshal_eap5g_data}
use n3iwf.Eap5g.Ends.{unmarshal-ne-panic}
use n3iwf.Events.{unmarshal_eap5g_data_evt}
use n3iwf.Ngap.Types.{Env}
use n3iwf.Ngap.Keep.{with_ran_ue-none}
use n3iwf.Ngap.Initial.{answer, handle_unmarshal_eap5g_data}

module _ {S G : Type 0} (env : Env S G) (w : N3iwf S G) (id : ℕ)
    (h : lookup id w.ran_ue_pool ≡ none) where
  answer_later :
      (spi : ℕ) (o : Outcome Error (Option (AnParameters G Bytes) × Bytes))
      → o ≢ panic
      → (answer env spi true id w o ≡ ok (w, [])) ⊎ (answer env spi true id w o ≡ out_of_fuel)
  unfolding answer
  answer_later spi (ok (params, nas)) n = inl (with_ran_ue-none id w _ h)
  answer_later spi (err e) n = inl refl
  answer_later spi panic n = absurd (n refl)
  answer_later spi out_of_fuel n = inr refl

  pub later_unknown :
      (spi : ℕ) (coded : Bytes)
      → All IsByte coded
      → (handle_unmarshal_eap5g_data env w (unmarshal_eap5g_data_evt spi coded true id)
          ≡ ok (w, []))
        ⊎ (handle_unmarshal_eap5g_data env w (unmarshal_eap5g_data_evt spi coded true id)
            ≡ out_of_fuel)
  unfolding handle_unmarshal_eap5g_data
  later_unknown spi coded b =
      answer_later spi (unmarshal_eap5g_data env.aper env.fuel coded)
        (unmarshal-ne-panic env.aper env.fuel coded b)
