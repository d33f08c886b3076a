-- ===== src/Ike/Auth.antt =====
-- HandleIKEAUTH of internal/ike/handler.go: the three states of the IKE_AUTH exchange. The last one
-- stands in Established, and the choice of the ESP proposal in Proposal.
--
-- A function stands for the code from where it begins to the end of its case. The random numbers are
-- lists, as in Exchange. A panic has no state in the model, while Dispatch of internal/ike/dispatcher.go
-- recovers from it, and the server goes on with what the handler has written up to there.
pub mod Guarded
pub mod Tests
use n3iwf.Prelude.{
  ℕ, ◌+◌, ◌%◌, ◌^◌, Bool, true, false, List, [], ◌∷◌, ◌++◌, Option, none, some, ◌==◌, get_elem?,
  if◌then◌else◌,
}
use n3iwf.Prelude.Bytes.{Bytes}
use n3iwf.Prelude.Map.{lookup}
use n3iwf.Prelude.Outcome.{Outcome, ok, err, panic, out_of_fuel, ◌>>=◌, slice_from, or_panic}
use n3iwf.Sa.{IkeSa}
use n3iwf.Context.{Go, ngap_id_load}
use n3iwf.Context.Children.{Host}
use n3iwf.Events.{unmarshal_eap5g_data_evt}
use n3iwf.Ike.Proposal.{Proposal, select_esp}
use n3iwf.Ike.Established.{post_signalling}
use n3iwf.Ike.Exchange.{
  EapTypeData, no_type_data, other_type_data, expanded, Eap, Payload, AuthRequest, Parsed,
  no_payloads, parse_payloads, no_proposal_chosen, eap_failure, eap_5g_start, AuthSent, to_ue,
  to_ngap, AuthEnv, AuthStep, set_ike_sa, respond, draw_identifier,
}

abbrev or_zero : Option ℕ → ℕ
or_zero none = 0
or_zero (some n) = n

abbrev is_some {ℓ} : {A : Type ℓ} → Option A → Bool
is_some none = false
is_some (some a) = true

-- 5G-Stop is answered by an EAP failure with a random identifier.
abbrev stop_of : ℕ → ℕ → AuthRequest → Option ℕ → List AuthSent
stop_of connection a m none = []
stop_of connection a m (some i) = to_ue (respond connection a m (eap_failure i)) ∷ []

module _ {S G K : Type 0} (env : AuthEnv S K) (connection a : ℕ) (m : AuthRequest) where
  -- PreSignalling. The 5G-Start goes out with a new identifier.
  start : IkeSa → Host S G K → Option ℕ → AuthStep S G K
  start sa h none = ok (set_ike_sa a sa h, [])
  start sa h (some i) = ok (
    set_ike_sa a (record sa { last_eap_identifier = i; state = (sa.state + 1) % 2 ^ 8 }) h,
    to_ue (respond connection a m (eap_5g_start (env.sign sa.responder_signed_octets) i)) ∷ [],
  )

  -- With the traffic selectors of the request.
  with_selectors : List (Option ℕ) → Bool → Bool → IkeSa → Host S G K → AuthStep S G K
  unfolding start draw_identifier
  with_selectors draws true true sa h =
      draw_identifier sa.last_eap_identifier draws >>= λ i. start sa h i
  with_selectors draws true false sa h = ok (set_ike_sa a sa h, [])
  with_selectors draws false r sa h = ok (set_ike_sa a sa h, [])

  -- With the answer to its proposals.
  with_proposals : List (Option ℕ) → Parsed → List Proposal → IkeSa → Host S G K → AuthStep S G K
  unfolding with_selectors
  with_proposals draws p [] sa h =
      ok (set_ike_sa a sa h, to_ue (respond connection a m no_proposal_chosen) ∷ [])
  with_proposals draws p (q ∷ qs) sa h =
      with_selectors draws p.has_ts_i p.has_ts_r
        (record sa { ike_auth_response_sa = some (q ∷ qs) }) h

  -- With the proposals of the request.
  with_identity :
      List (Option ℕ) → Parsed → Option (List Proposal) → IkeSa → Host S G K → AuthStep S G K
  unfolding with_proposals
  with_identity draws p none sa h = ok (set_ike_sa a sa h, [])
  with_identity draws p (some ps) sa h = with_proposals draws p (select_esp ps) sa h

  -- The hash of the identification.
  hashed : List (Option ℕ) → Parsed → Option Bytes → IkeSa → Host S G K → AuthStep S G K
  unfolding with_identity
  hashed draws p none sa h = ok (set_ike_sa a sa h, [])
  hashed draws p (some mac) sa h =
      with_identity draws p p.security_association
        (record sa { initiator_signed_octets = sa.initiator_signed_octets ++ mac }) h

  -- The payload of the identification is hashed without its first four bytes.
  encoded : List (Option ℕ) → Parsed → Option Bytes → IkeSa → Host S G K → AuthStep S G K
  unfolding hashed
  encoded draws p none sa h = ok (set_ike_sa a sa h, [])
  encoded draws p (some coded) sa h = do
    body ← slice_from coded 4
    hashed draws p (env.prf_i a body) sa h

  pre_signalling : List (Option ℕ) → Parsed → Option Bytes → IkeSa → Host S G K → AuthStep S G K
  unfolding encoded
  pre_signalling draws p none sa h = ok (set_ike_sa a sa h, [])
  pre_signalling draws p (some id) sa h = encoded draws p (env.encode_id id) sa h

  -- EAPSignalling. The vendor data with its first byte, the message ID: 4 is 5G-Stop.
  vendor_data : Option ℕ → ℕ → Bytes → IkeSa → Host S G K → AuthStep S G K
  vendor_data drawn id rest sa h =
      let stopped = ok (set_ike_sa a sa h, stop_of connection a m drawn) in
      let passed = ok (
        set_ike_sa a (record sa { ike_connection = some connection }) h,
        to_ngap (
              unmarshal_eap5g_data_evt sa.local_spi (id ∷ rest) (is_some sa.ike_ue)
                (or_zero (ngap_id_load sa.local_spi h.context)))
            ∷ [],
      ) in
      if id == 4 then stopped else passed

  -- The checks on the type and the vendor: 10415 is the 3GPP, and 3 is EAP-5G.
  type_data : Option ℕ → EapTypeData → IkeSa → Host S G K → AuthStep S G K
  unfolding vendor_data
  type_data drawn (expanded vendor type (id ∷ rest)) sa h =
      let taken = vendor_data drawn id rest sa h in
      if vendor == 10415
      then if type == 3 then taken else ok (set_ike_sa a sa h, [])
      else ok (set_ike_sa a sa h, [])
  type_data drawn (expanded vendor type []) sa h = ok (set_ike_sa a sa h, [])
  type_data drawn no_type_data sa h = ok (set_ike_sa a sa h, [])
  type_data drawn other_type_data sa h = ok (set_ike_sa a sa h, [])

  -- A response with the identifier of the last request.
  eap_signalling : Option ℕ → Option Eap → IkeSa → Host S G K → AuthStep S G K
  unfolding type_data
  eap_signalling drawn none sa h = ok (set_ike_sa a sa h, [])
  eap_signalling drawn (some e) sa h =
      if e.code == 2
      then if e.identifier == sa.last_eap_identifier
        then type_data drawn e.type_data sa h
        else ok (set_ike_sa a sa h, [])
      else ok (set_ike_sa a sa h, [])

  -- The switch over the state.
  in_state : List (Option ℕ) → Option ℕ → Parsed → IkeSa → Host S G K → AuthStep S G K
  unfolding pre_signalling eap_signalling post_signalling
  in_state draws drawn p sa h =
      let post : AuthStep S G K = or_panic sa.ike_ue >>= λ u.
      post_signalling env connection a u m draws p sa (set_ike_sa a sa h) in
      if sa.state == 0
      then pre_signalling draws p p.initiator_id sa h
      else if sa.state == 1
      then eap_signalling drawn p.payload_eap sa h
      else if sa.state == 2
      then post
      else ok (set_ike_sa a sa h, [])

  -- HandleIKEAUTH on a connection, for the IKE SA at `a`. The draws are for the loops, and `drawn` is
  -- the identifier of an EAP failure.
  unfoldable pub handle_ike_auth : List (Option ℕ) → Option ℕ → Host S G K → AuthStep S G K
  unfolding in_state parse_payloads
  handle_ike_auth draws drawn h = do
    sa ← or_panic (lookup a h.context.ike_sas)
    in_state draws drawn (parse_payloads m.payloads no_payloads)
        (record sa { initiator_message_id = (m.message_id + 1) % 2 ^ 32 }) h
