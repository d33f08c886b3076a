-- ===== src/Ike/Eap/Tests.antt =====
-- Events for the IKE SA of the gateway of the tests of Context.
use n3iwf.Prelude.{ℕ, ◌≡◌, refl, List, [], ◌∷◌, some, arith}
use n3iwf.Prelude.Map.{lookup}
use n3iwf.Prelude.Outcome.{ok, After}
use n3iwf.Sa.{IkeSa, empty_ike_ue}
use n3iwf.Context.Children.{Host}
use n3iwf.Context.Mapping.{Linked}
use n3iwf.Context.Tests.{ike_sa, ike_ue, gateway}
use n3iwf.Events.{
  unmarshal_eap5g_data_response_evt, send_initial_ue_message_evt, send_eap_success_msg_evt,
}
use n3iwf.Ike.Exchange.{eap_success, to_ue, to_ngap}
use n3iwf.Ike.Auth.Tests.{surroundings}
use n3iwf.Ike.Eap.{message_to, handle_unmarshal_eap5g_data_response, handle_send_eap_success_msg}
use n3iwf.Ike.Eap.Keyed.{success-Keyed, response-Linked}
use n3iwf.Ike.Eap.Waiting.{Attempt, attempts, Waiting, Presented, Held}

abbrev exchanging : IkeSa
exchanging = record ike_sa { state = 1; ike_connection = some 3; last_eap_identifier = 60 }

abbrev attached : Host ℕ ℕ ℕ
attached = record { context = record gateway { ike_sas = (5, exchanging) ∷ [] }; kernel = 0 }

success-Keyed_example :
    (v : Host ℕ ℕ ℕ) × (handle_send_eap_success_msg surroundings
        (some 61 ∷ [])
        attached
        (send_eap_success_msg_evt 900 (some (8 ∷ [])) 0)
      ≡ ok (v, to_ue (message_to 3 5 exchanging (eap_success 61)) ∷ []))
    × Waiting 5 6 (8 ∷ []) exchanging.initiator_signed_octets v
    × ((xs : List Attempt)
        → After
            (Held 5 6
              (8 ∷ [])
              exchanging.initiator_signed_octets
              (Presented surroundings 5 (8 ∷ []) exchanging.initiator_signed_octets xs))
            (attempts surroundings 5 xs v))
unfolding lookup
success-Keyed_example =
    success-Keyed surroundings 900 5 6 0 61 3 (8 ∷ []) [] exchanging ike_ue attached refl refl refl
      refl refl refl (λ e. ground arith) refl

response-Linked_example :
    (v : Host ℕ ℕ ℕ) × (handle_unmarshal_eap5g_data_response surroundings attached
        (unmarshal_eap5g_data_response_evt 900 4 (126 ∷ []))
      ≡ ok (v, to_ngap (send_initial_ue_message_evt 4 (51 ∷ []) 4500 (126 ∷ [])) ∷ []))
    × Linked 900 4 (some 7) (some 8) v.context
    × (lookup 8 v.context.ike_ues
        ≡ some (record empty_ike_ue { ike_security_association = some 5; ike_connection = some 3 }))
unfolding lookup
response-Linked_example =
    response-Linked surroundings 900 5 4 7 3 (126 ∷ []) exchanging attached refl refl refl refl refl
