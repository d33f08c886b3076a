-- ===== src/Ike/Auth/Guarded.antt =====
-- What a request can make HandleIKEAUTH do.
use n3iwf.Prelude.{
  ◌⊎◌, All, ap, ℕ, ◌+◌, ◌%◌, ◌^◌, ◌≡◌, ◌≢◌, refl, inl, inr, Bool, true, false, List, [], ◌∷◌,
  Option, none, some, ◌==◌, ==_iff, arith, Bool-cases,
}
use n3iwf.Prelude.Bytes.{Bytes}
use n3iwf.Prelude.Map.{lookup, lookup-insert_self}
use n3iwf.Prelude.Outcome.{
  Outcome, ok, err, panic, out_of_fuel, After, bind-After, or_panic-bind, slice_from, weaken,
}
use n3iwf.Sa.{IkeSa, IkeUe}
use n3iwf.Context.Children.{Host}
use n3iwf.Events.{NgapEvt}
use n3iwf.Ike.Proposal.{Proposal, select_esp}
use n3iwf.Ike.Established.{key_pad, or_nil}
use mathlib.Core.Path.{subst}
use n3iwf.Ike.Established.Onward.{Onward}
use n3iwf.Ike.Established.Verified.{Verified, turned_away, verified_by, post_signalling-Verified}
use n3iwf.Ike.Exchange.{
  EapTypeData, no_type_data, other_type_data, expanded, Eap, AuthRequest, Parsed, no_payloads,
  parse_payloads, eap_5g_start, AuthSent, IsReply, to_ue, to_ngap, AuthEnv, set_ike_sa, respond,
  draw_identifier,
}
use n3iwf.Ike.Auth.{
  start, with_selectors, with_proposals, with_identity, hashed, encoded, pre_signalling, stop_of,
  vendor_data, type_data, eap_signalling, in_state, handle_ike_auth,
}

-- The loop draws an identifier other than the last one.
draw_identifier-ne :
    (last : ℕ) (draws : List (Option ℕ))
    → After (λ o. (i : ℕ) → o ≡ some i → i ≢ last) (draw_identifier last draws)
unfolding draw_identifier
draw_identifier-ne last [] = tt
draw_identifier-ne last (none ∷ draws) = λ i e. absurd (ground arith)
draw_identifier-ne last (some i ∷ draws) = elim (Bool-cases (i == last)) [
  | inl b ↦ rw (b, draw_identifier) (draw_identifier-ne last draws)
  | inr b ↦ rw (b, draw_identifier) (λ j e same. ground (arith, ==_iff i last))
]

After-any {ℓ} : {A : Type ℓ} (m : Outcome (Unit {0}) A) → After (λ a. Unit {0}) m
After-any (ok a) = tt
After-any (err e) = tt
After-any panic = tt
After-any out_of_fuel = tt

stop_of-IsReply :
    (connection a : ℕ) (m : AuthRequest) (drawn : Option ℕ)
    → All IsReply (stop_of connection a m drawn)
stop_of-IsReply connection a m none = tt
stop_of-IsReply connection a m (some i) = (tt, tt)

module _ {S G K : Type 0} (env : AuthEnv S K) (connection a : ℕ) (m : AuthRequest) where
  -- The state after a request with the payloads `p`, for the IKE SA `sa` at `a`, and what is sent.
  pub data Guarded (p : Parsed) (sa : IkeSa) (h : Host S G K)
      : Host S G K × List AuthSent → Type 0 where
    refused :
        (sa' : IkeSa) (sent : List AuthSent)
        → sa'.state ≡ sa.state
        → (sa.state ≡ 0) ⊎ (sa' ≡ sa)
        → All IsReply sent
        → Guarded p sa h (set_ike_sa a sa' h, sent)
    started :
        (sa' : IkeSa) (ps qs : List Proposal) (q : Proposal) (signature : Bytes) (i : ℕ)
        → sa.state ≡ 0
        → sa'.state ≡ 1
        → p.security_association ≡ some ps
        → select_esp ps ≡ q ∷ qs
        → sa'.ike_auth_response_sa ≡ some (q ∷ qs)
        → i ≢ sa.last_eap_identifier
        → sa'.last_eap_identifier ≡ i
        → Guarded p sa h
            (set_ike_sa a sa' h, to_ue (respond connection a m (eap_5g_start signature i)) ∷ [])
    passed_on :
        (e : Eap) (evt : NgapEvt)
        → sa.state ≡ 1
        → p.payload_eap ≡ some e
        → e.code ≡ 2
        → e.identifier ≡ sa.last_eap_identifier
        → Guarded p sa h
            (set_ike_sa a (record sa { ike_connection = some connection }) h, to_ngap evt ∷ [])
    authenticated :
        {r : Host S G K × List AuthSent} (u : ℕ) (ue : IkeUe) (secret mac : Bytes)
        → sa.state ≡ 2
        → sa.ike_ue ≡ some u
        → lookup u h.context.ike_ues ≡ some ue
        → env.prf a (or_nil ue.kn3iwf) key_pad ≡ some secret
        → env.prf a secret sa.initiator_signed_octets ≡ some mac
        → p.authentication ≡ some mac
        → Onward a u 2 r
        → Guarded p sa h r

  vendor_data-Guarded :
      (p : Parsed) (sa : IkeSa) (h : Host S G K) (e : Eap) (drawn : Option ℕ) (id : ℕ)
      (rest : Bytes)
      → sa.state ≡ 1
      → p.payload_eap ≡ some e
      → e.code ≡ 2
      → e.identifier ≡ sa.last_eap_identifier
      → After (Guarded p sa h) (vendor_data env connection a m drawn id rest sa h)
  unfolding vendor_data
  vendor_data-Guarded p sa h e drawn id rest st pe code ident = elim (Bool-cases (id == 4)) [
    | inl b ↦
        rw (b, vendor_data)
          (refused sa (stop_of connection a m drawn) refl (inr refl)
            (stop_of-IsReply connection a m drawn))
    | inr b ↦ rw (b, vendor_data) (passed_on e _ st pe code ident)
  ]

  type_data-Guarded :
      (p : Parsed) (sa : IkeSa) (h : Host S G K) (e : Eap) (drawn : Option ℕ) (d : EapTypeData)
      → sa.state ≡ 1
      → p.payload_eap ≡ some e
      → e.code ≡ 2
      → e.identifier ≡ sa.last_eap_identifier
      → After (Guarded p sa h) (type_data env connection a m drawn d sa h)
  unfolding type_data
  type_data-Guarded p sa h e drawn (expanded vendor type (id ∷ rest)) st pe code ident =
      let taken = vendor_data-Guarded p sa h e drawn id rest st pe code ident in
      elim (Bool-cases (vendor == 10415)) [
        | inl b ↦ elim (Bool-cases (type == 3)) [
          | inl c ↦ rw (b, c, type_data) taken
          | inr c ↦ rw (b, c, type_data) (refused sa [] refl (inr refl) tt)
        ]
        | inr b ↦ rw (b, type_data) (refused sa [] refl (inr refl) tt)
      ]
  type_data-Guarded p sa h e drawn (expanded vendor type []) st pe code ident =
      refused sa [] refl (inr refl) tt
  type_data-Guarded p sa h e drawn no_type_data st pe code ident = refused sa [] refl (inr refl) tt
  type_data-Guarded p sa h e drawn other_type_data st pe code ident =
      refused sa [] refl (inr refl) tt

  eap_signalling-Guarded :
      (p : Parsed) (sa : IkeSa) (h : Host S G K) (drawn : Option ℕ) (o : Option Eap)
      → sa.state ≡ 1
      → p.payload_eap ≡ o
      → After (Guarded p sa h) (eap_signalling env connection a m drawn o sa h)
  unfolding eap_signalling
  eap_signalling-Guarded p sa h drawn none st pe = refused sa [] refl (inr refl) tt
  eap_signalling-Guarded p sa h drawn (some e) st pe = elim (Bool-cases (e.code == 2)) [
    | inl b ↦ elim (Bool-cases (e.identifier == sa.last_eap_identifier)) [
      | inl c ↦
          rw (b, c, eap_signalling)
            (type_data-Guarded p sa h e drawn e.type_data st pe ((==_iff e.code 2).0 b)
              ((==_iff e.identifier sa.last_eap_identifier).0 c))
      | inr c ↦ rw (b, c, eap_signalling) (refused sa [] refl (inr refl) tt)
    ]
    | inr b ↦ rw (b, eap_signalling) (refused sa [] refl (inr refl) tt)
  ]

  start-Guarded :
      (p : Parsed) (sa : IkeSa) (h : Host S G K) (ps qs : List Proposal) (q : Proposal)
      (octets : Bytes) (o : Option ℕ)
      → sa.state ≡ 0
      → p.security_association ≡ some ps
      → select_esp ps ≡ q ∷ qs
      → ((i : ℕ) → o ≡ some i → i ≢ sa.last_eap_identifier)
      → After (Guarded p sa h) (
          start env connection a m
            (record sa { initiator_signed_octets = octets; ike_auth_response_sa = some (q ∷ qs) })
            h
            o)
  unfolding start
  start-Guarded p sa h ps qs q octets none st offered selected ne = refused _ [] refl (inl st) tt
  start-Guarded p sa h ps qs q octets (some i) st offered selected ne =
      started _ ps qs q _ i st (ap (λ n. (n + 1) % 2 ^ 8) st) offered selected refl (ne i refl) refl

  with_selectors-Guarded :
      (p : Parsed) (sa : IkeSa) (h : Host S G K) (draws : List (Option ℕ)) (ps qs : List Proposal)
      (q : Proposal) (ts_i ts_r : Bool) (octets : Bytes)
      → sa.state ≡ 0
      → p.security_association ≡ some ps
      → select_esp ps ≡ q ∷ qs
      → After (Guarded p sa h) (
          with_selectors env connection a m draws ts_i ts_r
            (record sa { initiator_signed_octets = octets; ike_auth_response_sa = some (q ∷ qs) })
            h)
  unfolding with_selectors start
  with_selectors-Guarded p sa h draws ps qs q true true octets st offered selected =
      bind-After (Guarded p sa h) (draw_identifier sa.last_eap_identifier draws) _
        (draw_identifier-ne sa.last_eap_identifier draws)
        (λ o. start-Guarded p sa h ps qs q octets o st offered selected)
  with_selectors-Guarded p sa h draws ps qs q true false octets st offered selected =
      refused _ [] refl (inl st) tt
  with_selectors-Guarded p sa h draws ps qs q false r octets st offered selected =
      refused _ [] refl (inl st) tt

  with_proposals-Guarded :
      (p : Parsed) (sa : IkeSa) (h : Host S G K) (draws : List (Option ℕ))
      (ps chosen : List Proposal) (octets : Bytes)
      → sa.state ≡ 0
      → p.security_association ≡ some ps
      → select_esp ps ≡ chosen
      → After (Guarded p sa h) (
          with_proposals env connection a m draws p chosen
            (record sa { initiator_signed_octets = octets })
            h)
  unfolding with_proposals
  with_proposals-Guarded p sa h draws ps [] octets st offered selected =
      refused _ _ refl (inl st) (tt, tt)
  with_proposals-Guarded p sa h draws ps (q ∷ qs) octets st offered selected =
      with_selectors-Guarded p sa h draws ps qs q p.has_ts_i p.has_ts_r octets st offered selected

  with_identity-Guarded :
      (p : Parsed) (sa : IkeSa) (h : Host S G K) (draws : List (Option ℕ)) (octets : Bytes)
      (o : Option (List Proposal))
      → sa.state ≡ 0
      → p.security_association ≡ o
      → After (Guarded p sa h) (
          with_identity env connection a m draws p o
            (record sa { initiator_signed_octets = octets })
            h)
  unfolding with_identity
  with_identity-Guarded p sa h draws octets none st e = refused _ [] refl (inl st) tt
  with_identity-Guarded p sa h draws octets (some ps) st e =
      with_proposals-Guarded p sa h draws ps (select_esp ps) octets st e refl

  hashed-Guarded :
      (p : Parsed) (sa : IkeSa) (h : Host S G K) (draws : List (Option ℕ)) (o : Option Bytes)
      → sa.state ≡ 0
      → After (Guarded p sa h) (hashed env connection a m draws p o sa h)
  unfolding hashed
  hashed-Guarded p sa h draws none st = refused sa [] refl (inr refl) tt
  hashed-Guarded p sa h draws (some mac) st =
      with_identity-Guarded p sa h draws _ p.security_association st refl

  encoded-Guarded :
      (p : Parsed) (sa : IkeSa) (h : Host S G K) (draws : List (Option ℕ)) (o : Option Bytes)
      → sa.state ≡ 0
      → After (Guarded p sa h) (encoded env connection a m draws p o sa h)
  unfolding encoded
  encoded-Guarded p sa h draws none st = refused sa [] refl (inr refl) tt
  encoded-Guarded p sa h draws (some coded) st =
      bind-After {P = λ b. Unit {0}} (Guarded p sa h) (slice_from coded 4) _
        (After-any (slice_from coded 4))
        (λ body _. hashed-Guarded p sa h draws (env.prf_i a body) st)

  pre_signalling-Guarded :
      (p : Parsed) (sa : IkeSa) (h : Host S G K) (draws : List (Option ℕ)) (o : Option Bytes)
      → sa.state ≡ 0
      → After (Guarded p sa h) (pre_signalling env connection a m draws p o sa h)
  unfolding pre_signalling
  pre_signalling-Guarded p sa h draws none st = refused sa [] refl (inr refl) tt
  pre_signalling-Guarded p sa h draws (some id) st =
      encoded-Guarded p sa h draws (env.encode_id id) st

  post-Guarded :
      (p : Parsed) (sa : IkeSa) (u : ℕ) (h : Host S G K) (r : Host S G K × List AuthSent)
      → sa.state ≡ 2
      → sa.ike_ue ≡ some u
      → Verified env a u p sa (set_ike_sa a sa h) r
      → Guarded p sa h r
  unfolding set_ike_sa
  post-Guarded p sa u h _ st at (turned_away sent replies) = refused sa sent refl (inr refl) replies
  post-Guarded p sa u h r st at (verified_by ue secret mac object e f given onward) =
      authenticated u ue secret mac st at object e f given (subst (λ n. Onward a u n r) st onward)

  in_state-Guarded :
      (draws : List (Option ℕ)) (drawn : Option ℕ) (p : Parsed) (sa : IkeSa) (h : Host S G K)
      → After (Guarded p sa h) (in_state env connection a m draws drawn p sa h)
  unfolding in_state set_ike_sa
  in_state-Guarded draws drawn p sa h = elim (Bool-cases (sa.state == 0)) [
    | inl b ↦
        rw (b, in_state)
          (pre_signalling-Guarded p sa h draws p.initiator_id ((==_iff sa.state 0).0 b))
    | inr b ↦ elim (Bool-cases (sa.state == 1)) [
      | inl c ↦
          rw (b, c, in_state)
            (eap_signalling-Guarded p sa h drawn p.payload_eap ((==_iff sa.state 1).0 c) refl)
      | inr c ↦ elim (Bool-cases (sa.state == 2)) [
        | inl d ↦
            rw (b, c, d, in_state)
              (or_panic-bind (Guarded p sa h) sa.ike_ue _ (λ u at.
                weaken (Guarded p sa h) _
                  (post_signalling-Verified env connection a u m draws p sa (set_ike_sa a sa h)
                    (lookup-insert_self a sa h.context.ike_sas))
                  (λ r. post-Guarded p sa u h r ((==_iff sa.state 2).0 d) at)))
        | inr d ↦ rw (b, c, d, in_state) (refused sa [] refl (inr refl) tt)
      ]
    ]
  ]

-- A request of the IKE_AUTH exchange at the IKE SA at `a`, with its message ID stored: HandleIKEAUTH
-- does one of these, whatever the request holds, unless it panics or a loop is out of draws. It leaves
-- the state of the IKE SA and all other objects as they were, from state 1 on the whole IKE SA, and
-- sends responses to the UE at most. It goes on from state 0 to 1, where the payloads have proposals,
-- select_esp chooses some, which are stored, and a 5G-Start with a new identifier is sent. It passes
-- one event to NGAP, in state 1, for an EAP response that has the identifier of the last request, with
-- no change but the connection. Or it is in state 2, and the AUTH payload is the PRF of the octets of
-- the initiator, under the key that the N3IWF key of the UE gives: only then can another object change.
-- Then the IKE SA is in state 2 still, with responses to the UE at most, or it is in state 3, with one
-- response and the two events that start the signalling over TCP and ask for the context, both for the
-- RAN UE NGAP ID to which the SPI of the IKE SA of the UE leads.
pub handle_ike_auth-Guarded :
    {S G K : Type 0} (env : AuthEnv S K) (connection a : ℕ) (m : AuthRequest)
    (draws : List (Option ℕ)) (drawn : Option ℕ) (sa : IkeSa) (h : Host S G K)
    → lookup a h.context.ike_sas ≡ some sa
    → After
        (Guarded env connection a m
          (parse_payloads m.payloads no_payloads)
          (record sa { initiator_message_id = (m.message_id + 1) % 2 ^ 32 })
          h)
        (handle_ike_auth env connection a m draws drawn h)
unfolding handle_ike_auth
handle_ike_auth-Guarded env connection a m draws drawn sa h e =
    rw (e, handle_ike_auth)
      (in_state-Guarded env connection a m draws drawn (parse_payloads m.payloads no_payloads)
        (record sa { initiator_message_id = (m.message_id + 1) % 2 ^ 32 }) h)
