-- ===== src/Context/Children/Complete.antt =====
-- A child SA that the gateway asks for: CreateHalfChildSA, then CompleteChildSA.
use n3iwf.Prelude.{
  ap, ℕ, ◌≡◌, refl, ◌∙◌, List, [], ◌∷◌, Option, none, some, ◌==◌, if◌then◌else◌, arith,
}
use mathlib.Core.Path.{subst}
use n3iwf.Prelude.Map.{
  lookup, delete, insert, lookup-insert, lookup-delete, lookup-insert_self, lookup-delete_self,
}
use n3iwf.Prelude.Outcome.{ok, After, or_panic-bind, bind-some}
use n3iwf.Sa.{ChildSa, ChildSaKey, IkeUe, empty_child_sa, create_half_child_sa}
use n3iwf.Context.Children.{
  Host, done, failed, no_half_child_sa, set_ike_ue, keyed, chosen, completed, complete_child_sa,
}

-- The UE `ue` at `u` in `h` has got the child SA `c` in `v`, for the exchange `msg_id`.
pub record Completed {S G K : Type 0} (u msg_id : ℕ) (c : ChildSa) (ue : IkeUe) (h v : Host S G K)
    : Type 0 where
  pub after : IkeUe
  pub object : lookup u v.context.ike_ues ≡ some after
  pub recorded :
      (j : ℕ)
      → lookup j after.child_security_association
        ≡ (if c.inbound_spi == j then some c else lookup j ue.child_security_association)
  pub used :
      (j : ℕ)
      → lookup j after.temporary_exchange
        ≡ (if msg_id == j then none else lookup j ue.temporary_exchange)
  pub known : v.context.child_sa ≡ c.inbound_spi ∷ h.context.child_sa

abbrev joined_half : ℕ → ℕ → ChildSa
joined_half inbound pdu = record empty_child_sa {
  inbound_spi = inbound;
  pdu_session_ids = pdu ∷ [];
}

-- The child SA that a request for the PDU session `pdu` and its response make.
abbrev pub joined : ℕ → ℕ → ℕ → ChildSaKey → ChildSa
joined inbound outbound pdu key = record empty_child_sa {
  inbound_spi = inbound;
  outbound_spi = outbound;
  pdu_session_ids = pdu ∷ [];
  child_sa_key = some key;
}

module _ {S G K P : Type 0} (new_child_sa_key : P → Option ChildSaKey) where
  -- The UE is there, and the message ID has no half child SA.
  abbrev Forgotten : ℕ → ℕ → Host S G K → Type 0
  Forgotten u msg_id v =
      (ue : IkeUe) × (lookup u v.context.ike_ues ≡ some ue)
      × (lookup msg_id ue.temporary_exchange ≡ none)

  keyed-Forgotten :
      (u msg_id : ℕ) (ue : IkeUe) (c : ChildSa) (h : Host S G K) (key : Option ChildSaKey)
      → lookup msg_id ue.temporary_exchange ≡ none
      → Forgotten u msg_id (keyed new_child_sa_key u ue c (set_ike_ue u ue h) key).0
  unfolding keyed set_ike_ue
  keyed-Forgotten u msg_id ue c h none free = (ue, lookup-insert_self u ue h.context.ike_ues, free)
  keyed-Forgotten u msg_id ue c h (some key) free =
      let d = record c { child_sa_key = some key } in
      let after = record ue {
        child_security_association = insert c.inbound_spi d ue.child_security_association;
      } in
      (after, lookup-insert_self u after (insert u ue h.context.ike_ues), free)

  chosen-Forgotten :
      (u msg_id outbound : ℕ) (ue : IkeUe) (c : ChildSa) (h : Host S G K)
      (proposals : Option (List P))
      → lookup msg_id ue.temporary_exchange ≡ none
      → Forgotten u msg_id (chosen new_child_sa_key u outbound ue c (set_ike_ue u ue h) proposals).0
  unfolding chosen set_ike_ue
  chosen-Forgotten u msg_id outbound ue c h none free =
      (ue, lookup-insert_self u ue h.context.ike_ues, free)
  chosen-Forgotten u msg_id outbound ue c h (some []) free =
      (ue, lookup-insert_self u ue h.context.ike_ues, free)
  chosen-Forgotten u msg_id outbound ue c h (some (p ∷ ps)) free =
      keyed-Forgotten u msg_id ue (record c { outbound_spi = outbound }) h (new_child_sa_key p) free

  completed-Forgotten :
      (u msg_id outbound : ℕ) (proposals : Option (List P)) (ue : IkeUe) (h : Host S G K)
      (o : Option ChildSa)
      → lookup u h.context.ike_ues ≡ some ue
      → lookup msg_id ue.temporary_exchange ≡ o
      → Forgotten u msg_id (completed new_child_sa_key u msg_id outbound proposals ue h o).0
  unfolding completed
  completed-Forgotten u msg_id outbound proposals ue h none object free = (ue, object, free)
  completed-Forgotten u msg_id outbound proposals ue h (some c) object free =
      chosen-Forgotten u msg_id outbound
        (record ue { temporary_exchange = delete msg_id ue.temporary_exchange }) c h proposals
        (lookup-delete_self msg_id ue.temporary_exchange)

  -- Once CompleteChildSA has returned for a message ID, whatever it returned, the ID has no half child
  -- SA any more: a further call for it changes nothing and fails.
  complete_child_sa_once :
      (u msg_id outbound again : ℕ) (proposals more : Option (List P)) (h : Host S G K)
      → After
          (λ r.
            complete_child_sa new_child_sa_key u msg_id again more r.0
            ≡ ok (r.0, failed no_half_child_sa))
          (complete_child_sa new_child_sa_key u msg_id outbound proposals h)
  unfolding complete_child_sa completed
  complete_child_sa_once u msg_id outbound again proposals more h =
      or_panic-bind
        (λ r.
          complete_child_sa new_child_sa_key u msg_id again more r.0
          ≡ ok (r.0, failed no_half_child_sa))
        (lookup u h.context.ike_ues) _
        (λ ue e.
          let r =
            completed new_child_sa_key u msg_id outbound proposals ue h
              (lookup msg_id ue.temporary_exchange) in
          let (after, object, free) =
            completed-Forgotten u msg_id outbound proposals ue h
              (lookup msg_id ue.temporary_exchange) e refl in
          bind-some _ object
          ∙ ap (λ o. ok (completed new_child_sa_key u msg_id again more after r.0 o)) free)

  -- CreateHalfChildSA and then CompleteChildSA with the same message ID, when a key can be made for
  -- the first proposal: the child SA has both SPIs, the PDU session and the key, the UE has it under
  -- its inbound SPI beside the child SAs that it had, and the context knows the inbound SPI. The message
  -- ID is used up: any further CompleteChildSA with it fails and changes nothing.
  pub complete-create :
      (u msg_id inbound outbound pdu : ℕ) (p : P) (ps : List P) (key : ChildSaKey) (ue : IkeUe)
      (h : Host S G K)
      → new_child_sa_key p ≡ some key
      → (v : Host S G K) × (complete_child_sa new_child_sa_key u msg_id outbound
            (some (p ∷ ps))
            (set_ike_ue u (create_half_child_sa msg_id inbound pdu ue) h)
          ≡ ok (v, done (joined inbound outbound pdu key)))
        × Completed u msg_id (joined inbound outbound pdu key) ue h v
        × ((again : ℕ) (more : Option (List P))
            → complete_child_sa new_child_sa_key u msg_id again more v
              ≡ ok (v, failed no_half_child_sa))
  unfolding complete_child_sa create_half_child_sa completed chosen keyed set_ike_ue
  complete-create u msg_id inbound outbound pdu p ps key ue h k =
      let half = joined_half inbound pdu in
      let before = record ue { temporary_exchange = insert msg_id half ue.temporary_exchange } in
      let given = set_ike_ue u before h in
      let without = record before {
        temporary_exchange = delete msg_id before.temporary_exchange;
      } in
      let c = joined inbound outbound pdu key in
      let after = record without {
        child_security_association = insert inbound c ue.child_security_association;
      } in
      let v =
        (keyed new_child_sa_key u without (record half { outbound_spi = outbound })
          (set_ike_ue u without given) (some key)).0 in
      let made : complete_child_sa new_child_sa_key u msg_id outbound (some (p ∷ ps)) given
          ≡ ok (v, done c) =
        bind-some _ (lookup-insert_self u before h.context.ike_ues)
        ∙ ap (λ o. ok (completed new_child_sa_key u msg_id outbound (some (p ∷ ps)) before given o))
            (lookup-insert_self msg_id half ue.temporary_exchange)
        ∙ ap
            (λ o. ok (
              keyed new_child_sa_key u without (record half { outbound_spi = outbound })
                (set_ike_ue u without given) o))
            k in
      (
        v,
        made,
        record {
          after = after;
          object = lookup-insert_self u after (set_ike_ue u without given).context.ike_ues;
          recorded = λ j. lookup-insert inbound j c ue.child_security_association;
          used = λ j. ground (
            arith,
            lookup-delete msg_id j before.temporary_exchange,
            lookup-insert msg_id j half ue.temporary_exchange,
          );
          known = refl;
        },
        (λ again more.
            subst
              (After (λ r.
                complete_child_sa new_child_sa_key u msg_id again more r.0
                ≡ ok (r.0, failed no_half_child_sa)))
              made (complete_child_sa_once u msg_id outbound again (some (p ∷ ps)) more given)),
      )
