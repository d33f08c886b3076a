-- ===== src/Context/Children/Associations.antt =====
-- CompleteChildSA and the IKE SAs.
use n3iwf.Prelude.{ℕ, ◌≡◌, refl, List, [], ◌∷◌, Option, none, some}
use n3iwf.Prelude.Map.{lookup, delete}
use n3iwf.Prelude.Outcome.{After, or_panic-bind}
use n3iwf.Sa.{ChildSaKey, ChildSa, IkeUe}
use n3iwf.Context.Children.{
  Host, Result, SaError, set_ike_ue, keyed, chosen, completed, complete_child_sa,
}

module _ {S G K P : Type 0} (new_child_sa_key : P → Option ChildSaKey) where
  -- The IKE SAs of the first are those of the host.
  SameSas : Host S G K → Host S G K × Result SaError ChildSa → Type 0
  SameSas h r = r.0.context.ike_sas ≡ h.context.ike_sas

  keyed-SameSas :
      (u : ℕ) (ue : IkeUe) (c : ChildSa) (h : Host S G K) (o : Option ChildSaKey)
      → SameSas h (keyed new_child_sa_key u ue c h o)
  unfolding keyed set_ike_ue SameSas
  keyed-SameSas u ue c h none = refl
  keyed-SameSas u ue c h (some key) = refl

  completed-SameSas :
      (u msg_id outbound_spi : ℕ) (ps : Option (List P)) (ue : IkeUe) (h : Host S G K)
      (o : Option ChildSa)
      → SameSas h (completed new_child_sa_key u msg_id outbound_spi ps ue h o)
  unfolding completed chosen set_ike_ue SameSas
  completed-SameSas u msg_id outbound_spi ps ue h none = refl
  completed-SameSas u msg_id outbound_spi none ue h (some c) = refl
  completed-SameSas u msg_id outbound_spi (some []) ue h (some c) = refl
  completed-SameSas u msg_id outbound_spi (some (p ∷ ps)) ue h (some c) =
      let ue' = record ue { temporary_exchange = delete msg_id ue.temporary_exchange } in
      keyed-SameSas u ue' (record c { outbound_spi = outbound_spi }) (set_ike_ue u ue' h)
        (new_child_sa_key p)

  pub complete_child_sa-ike_sas :
      (u msg_id outbound_spi : ℕ) (ps : Option (List P)) (h : Host S G K)
      → After
          (λ r. r.0.context.ike_sas ≡ h.context.ike_sas)
          (complete_child_sa new_child_sa_key u msg_id outbound_spi ps h)
  unfolding complete_child_sa SameSas
  complete_child_sa-ike_sas u msg_id outbound_spi ps h =
      or_panic-bind (SameSas h) (lookup u h.context.ike_ues) _ (λ ue e.
        completed-SameSas u msg_id outbound_spi ps ue h (lookup msg_id ue.temporary_exchange))
