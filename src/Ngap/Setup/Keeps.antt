-- ===== src/Ngap/Setup/Keeps.antt =====
-- The answer for a set-up keeps the pools consistent.
use n3iwf.Prelude.{ℕ, ◌≡◌, refl, List, [], ◌∷◌, none, some}
use n3iwf.Prelude.Map.{lookup}
use n3iwf.Prelude.Outcome.{ok, After, bind-After, always}
use n3iwf.Context.{PduSession, RanUe, N3iwf}
use n3iwf.Context.Pools.{IsConsistent, assign-IsConsistent}
use n3iwf.Events.{send_pdu_session_resource_setup_res_evt}
use n3iwf.Ngap.Types.{Env}
use n3iwf.Ngap.Keep.{Kept, with_ran_ue-After, with_ran_ue-none}
use n3iwf.Ngap.Setup.{
  Loop, go_on, leave, setup_end, setup_loop, setup_answer, handle_setup_response,
}

module _ {S G : Type 0} (env : Env S G) (w : N3iwf S G) (c : IsConsistent w) where
  setup_end-Kept :
      (p : ℕ) (ue : RanUe)
      → lookup p w.ran_ues ≡ some ue
      → (o : Loop) → After Kept (setup_end env w p ue o)
  unfolding setup_end
  setup_end-Kept p ue l (leave setup) = assign-IsConsistent w p ue _ l refl c
  setup_end-Kept p ue l (go_on setup) = assign-IsConsistent w p ue _ l refl c

  setup_answer-Kept :
      (p : ℕ) (ue : RanUe)
      → lookup p w.ran_ues ≡ some ue
      → (sessions : List PduSession) → After Kept (setup_answer env w p ue sessions)
  unfolding setup_answer
  setup_answer-Kept p ue l [] = c
  setup_answer-Kept p ue l (session ∷ sessions) =
      bind-After Kept (setup_loop env (session ∷ sessions) 0 ue.setup_data) (setup_end env w p ue)
        (always _) (λ o u. setup_end-Kept p ue l o)

  pub handle_setup_response-Kept :
      (id : ℕ)
      → After Kept (handle_setup_response env w (send_pdu_session_resource_setup_res_evt id))
  unfolding handle_setup_response
  handle_setup_response-Kept id =
      with_ran_ue-After id w _ (λ p ue l. setup_answer-Kept p ue l ue.setup_data.unactivated) c

pub handle_setup_response-unknown :
    {S G : Type 0} (env : Env S G) (w : N3iwf S G) (id : ℕ)
    → lookup id w.ran_ue_pool ≡ none
    → handle_setup_response env w (send_pdu_session_resource_setup_res_evt id) ≡ ok (w, [])
unfolding handle_setup_response
handle_setup_response-unknown env w id h = with_ran_ue-none id w _ h
