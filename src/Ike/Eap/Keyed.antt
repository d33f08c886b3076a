-- ===== src/Ike/Eap/Keyed.antt =====
-- The events of the EAP exchange and what follows them: the joined UEs, and the key of the last round.
use mathlib.Core.Path.{subst}
use n3iwf.Prelude.{
  ap, sym, ℕ, ◌+◌, ◌%◌, ◌^◌, ◌≡◌, ◌≢◌, refl, ◌∙◌, true, List, [], ◌∷◌, Option, some, inl, inr, ◌==◌,
  ==_iff, Bool-cases, if◌then◌else◌,
}
use n3iwf.Prelude.Bytes.{Bytes}
use n3iwf.Prelude.Map.{lookup, lookup-insert_self}
use n3iwf.Prelude.Outcome.{ok, After, bind-some, bind-ok}
use n3iwf.Sa.{IkeSa, IkeUe, empty_ike_ue}
use n3iwf.Context.{new_n3iwf_ike_ue, ike_spi_ngap_id_mapping}
use n3iwf.Context.Children.{Host, set_ike_ue}
use n3iwf.Context.Mapping.{Linked, mapping-Linked}
use n3iwf.Events.{
  unmarshal_eap5g_data_response_evt, send_initial_ue_message_evt, send_eap_success_msg_evt,
}
use n3iwf.Ike.Exchange.{eap_success, to_ue, to_ngap, AuthEnv, set_ike_sa, draw_identifier}
use n3iwf.Ike.Eap.Waiting.{Attempt, attempts, Waiting, Presented, Held, attempts-Held}
use n3iwf.Ike.Eap.{
  message_to, load_sa, handle_unmarshal_eap5g_data_response, succeeded, handle_send_eap_success_msg,
}

module _ {S G K : Type 0} where
  load_sa-some :
      (spi a : ℕ) (sa : IkeSa) (h : Host S G K)
      → lookup spi h.context.ikesa ≡ some a
      → lookup a h.context.ike_sas ≡ some sa
      → load_sa spi h ≡ some (a, sa)
  unfolding load_sa
  load_sa-some spi a sa h e f = rw (e, load_sa, f) refl

draw_identifier-first :
    (last i : ℕ) (draws : List (Option ℕ))
    → i ≢ last
    → draw_identifier last (some i ∷ draws) ≡ ok (some i)
unfolding draw_identifier
draw_identifier-first last i draws ne = elim (Bool-cases (i == last)) [
  | inl b ↦ absurd (ne ((==_iff i last).0 b))
  | inr b ↦ rw (b, draw_identifier) refl
]

module _ {S G K : Type 0} (env : AuthEnv S K) where
  -- An IKE SA at `a` in the EAP exchange, state 1, with a UE and a connection, and a number of which the
  -- first draw is not the last identifier, and the sending succeeds. On the event with a key of the AMF,
  -- HandleSendEAPSuccessMsg sends an EAP success, and the IKE SA waits in state 2. Whatever requests
  -- HandleIKEAUTH then serves for the IKE SA, one after the other and none with a panic or out of draws:
  -- the IKE SA waits still, with the same signed octets, UE and key, and responses to the UE were sent at
  -- most, or one of the requests has an AUTH payload that is the PRF of the octets of the initiator,
  -- under the key that the key of the event gives.
  pub success-Keyed :
      (spi a u n i connection : ℕ) (key : Bytes) (draws : List (Option ℕ)) (sa : IkeSa) (ue : IkeUe)
      (h : Host S G K)
      → lookup spi h.context.ikesa ≡ some a
      → lookup a h.context.ike_sas ≡ some sa
      → sa.ike_ue ≡ some u
      → lookup u h.context.ike_ues ≡ some ue
      → sa.ike_connection ≡ some connection
      → sa.state ≡ 1
      → i ≢ sa.last_eap_identifier
      → env.sends (message_to connection a sa (eap_success i)) ≡ true
      → (v : Host S G K) × (handle_send_eap_success_msg env
            (some i ∷ draws)
            h
            (send_eap_success_msg_evt spi (some key) n)
          ≡ ok (v, to_ue (message_to connection a sa (eap_success i)) ∷ []))
        × Waiting a u key sa.initiator_signed_octets v
        × ((xs : List Attempt)
            → After
                (Held a u key sa.initiator_signed_octets
                  (Presented env a key sa.initiator_signed_octets xs))
                (attempts env a xs v))
  unfolding handle_send_eap_success_msg succeeded set_ike_sa set_ike_ue
  success-Keyed spi a u n i connection key draws sa ue h e f g l c st ne sends =
      let ue' = record ue { kn3iwf = some key; pdu_session_list_len = n } in
      let h' = set_ike_ue u ue' h in
      let after = record sa { last_eap_identifier = i; state = (sa.state + 1) % 2 ^ 8 } in
      let v = set_ike_sa a after h' in
      let r = message_to connection a sa (eap_success i) in
      let at_a : lookup a v.context.ike_sas ≡ some after =
        lookup-insert_self a after h'.context.ike_sas in
      let at_u : lookup u v.context.ike_ues ≡ some ue' =
        lookup-insert_self u ue' h.context.ike_ues in
      let waiting : Waiting a u key sa.initiator_signed_octets v = record {
        sa = after;
        ue = ue';
        at_a = at_a;
        at_u = at_u;
        last = ap (λ s. (s + 1) % 2 ^ 8) st;
        own = g;
        signed = refl;
        stored = refl;
      } in
      let finish : succeeded env a sa h' (some i) ≡ ok (v, to_ue r ∷ []) =
        bind-some _ c
        ∙ ap
            (λ b. ok (
              set_ike_sa a
                  (record sa {
                    last_eap_identifier = i;
                    state = if b then (sa.state + 1) % 2 ^ 8 else sa.state;
                  })
                  h',
              to_ue r ∷ [],
            ))
            sends in
      let run =
        bind-some _ (load_sa-some spi a sa h e f)
        ∙ (bind-some _ g
            ∙ (bind-some _ l
                ∙ (bind-ok _ (draw_identifier-first sa.last_eap_identifier i draws ne)
                    ∙ finish))) in
      (v, run, waiting, λ xs. attempts-Held env a u key sa.initiator_signed_octets xs v waiting)

  -- A response of the NGAP server for an IKE SA with its local SPI and a connection, and a RAN UE in the pool:
  -- HandleUnmarshalEAP5GDataResponse sends the initial UE message to NGAP, for the address of the connection. The SPI leads to the
  -- RAN UE, and the ID of the RAN UE leads to a new IKE UE, which has the IKE SA and its connection.
  pub response-Linked :
      (spi a id ran connection : ℕ) (nas : Bytes) (sa : IkeSa) (h : Host S G K)
      → lookup spi h.context.ikesa ≡ some a
      → lookup a h.context.ike_sas ≡ some sa
      → sa.local_spi ≡ spi
      → sa.ike_connection ≡ some connection
      → lookup id h.context.ran_ue_pool ≡ some ran
      → (v : Host S G K) × (handle_unmarshal_eap5g_data_response env h
            (unmarshal_eap5g_data_response_evt spi id nas)
          ≡ ok (
            v,
            to_ngap (
                  send_initial_ue_message_evt id
                    (env.ue_address connection)
                    (env.ue_port connection)
                    nas)
                ∷ [],
          ))
        × Linked spi id (some ran) (some h.context.next_pointer) v.context
        × (lookup h.context.next_pointer v.context.ike_ues
            ≡ some (record empty_ike_ue {
              ike_security_association = some a;
              ike_connection = some connection;
            }))
  unfolding handle_unmarshal_eap5g_data_response set_ike_sa set_ike_ue new_n3iwf_ike_ue
      ike_spi_ngap_id_mapping
  response-Linked spi a id ran connection nas sa h e f own c pooled =
      let u = h.context.next_pointer in
      let h1 =
        set_ike_sa a (record sa { ike_ue = some u })
          (record h { context = (new_n3iwf_ike_ue spi h.context).1 }) in
      let ue' = record empty_ike_ue {
        ike_security_association = some a;
        ike_connection = sa.ike_connection;
      } in
      let joined = set_ike_ue u ue' h1 in
      let v = record joined { context = ike_spi_ngap_id_mapping sa.local_spi id joined.context } in
      let run =
        bind-some _ (load_sa-some spi a sa h e f)
        ∙ (bind-some _ (lookup-insert_self u empty_ike_ue h.context.ike_ues) ∙ bind-some _ c) in
      let in_pool : lookup spi joined.context.ike_ue_pool ≡ some u =
        lookup-insert_self spi u h.context.ike_ue_pool in
      let (linked, gone, forgotten) = mapping-Linked spi id ran u joined.context pooled in_pool in
      let own_linked : Linked spi id (some ran) (some u) v.context =
        subst (λ x. Linked spi id (some ran) (some u) (ike_spi_ngap_id_mapping x id joined.context))
          (sym own) linked in
      (
        v,
        run,
        own_linked,
        lookup-insert_self u ue' h1.context.ike_ues
            ∙ ap
                (λ o.
                  some
                    (record empty_ike_ue { ike_security_association = some a; ike_connection = o }))
                c,
      )
