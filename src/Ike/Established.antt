-- ===== src/Ike/Established.antt =====
-- The last round of IKE_AUTH, in HandleIKEAUTH of internal/ike/handler.go (case PostSignalling): the AUTH
-- payload is verified, and the UE gets an inner address and its first child SA.
--
-- What rand.Read draws for the inbound SPI is a list, with none for an error; its end stands for the
-- fuel of the loop. Each function stands for the code from where it begins to the end of the case.
pub mod Onward
pub mod Verified
use n3iwf.Prelude.{
  ℕ, ◌+◌, ◌%◌, ◌^◌, Bool, true, false, List, [], ◌∷◌, Option, none, some, ◌==◌, ◌||◌, if◌then◌else◌,
}
use n3iwf.Prelude.Bytes.{Bytes, uint32, put_uint32, bytes_equal}
use n3iwf.Prelude.Map.{lookup, insert}
use n3iwf.Prelude.Outcome.{Outcome, ok, err, panic, out_of_fuel, ◌>>=◌, index, or_panic}
use n3iwf.Sa.{IkeSa, IkeUe, ChildSa, create_half_child_sa}
use n3iwf.Context.{Go, ngap_id_load}
use n3iwf.Context.Allocate.{new_ipsec_inner_ue_ip}
use n3iwf.Context.Children.{Host, Result, done, failed, SaError, set_ike_ue, complete_child_sa}
use n3iwf.Events.{start_tcp_signal_nas_msg_evt, get_ngap_context_evt}
use n3iwf.Ike.Proposal.{Proposal}
use n3iwf.Ike.Xfrm.{Applying, apply_xfrm_rule, parse_ip_address_information}
use n3iwf.Ike.Exchange.{
  AuthRequest, Parsed, authentication_failed, established, Response, AuthSent, to_ue, to_ngap,
  AuthEnv, AuthStep, set_ike_sa, respond,
}

-- "Key Pad for IKEv2"
abbrev pub key_pad : Bytes
key_pad =
    75 ∷ 101 ∷ 121 ∷ 32 ∷ 80 ∷ 97 ∷ 100 ∷ 32 ∷ 102 ∷ 111 ∷ 114 ∷ 32 ∷ 73 ∷ 75 ∷ 69 ∷ 118 ∷ 50 ∷ []

abbrev pub or_nil : Option Bytes → Bytes
or_nil none = []
or_nil (some b) = b

-- Is there an attribute INTERNAL_IP4_ADDRESS?
abbrev asks_address : List ℕ → Bool
asks_address [] = false
asks_address (t ∷ ts) = t == 1 || asks_address ts

abbrev pub requests_address : Option (List ℕ) → Bool
requests_address none = false
requests_address (some types) = asks_address types

-- Does ChildSA have the SPI?
abbrev is_allocated : ℕ → List ℕ → Bool
is_allocated spi [] = false
is_allocated spi (s ∷ ss) = s == spi || is_allocated spi ss

unfoldable pub draw_inbound_spi : List ℕ → List (Option ℕ) → Go (Option ℕ)
draw_inbound_spi taken [] = out_of_fuel
draw_inbound_spi taken (none ∷ draws) = ok none
draw_inbound_spi taken (some spi ∷ draws) =
    let again = draw_inbound_spi taken draws in
    if is_allocated spi taken then again else ok (some spi)

-- Uint32 of the SPI field of a proposal.
abbrev pub outbound_of : Bytes → Go ℕ
outbound_of (a ∷ b ∷ c ∷ d ∷ rest) = ok (uint32 a b c d)
outbound_of short = panic

-- The connection of a NAT.
abbrev behind_nat : Bool → ℕ → ℕ → ChildSa → ChildSa
behind_nat true n3iwf_port ue_port c = record c {
  enable_encapsulate = true;
  n3iwf_port = n3iwf_port;
  nat_port = ue_port;
}
behind_nat false n3iwf_port ue_port c = c

-- An assignment to the first proposal.
abbrev with_first : Proposal → List Proposal → List Proposal
with_first p [] = []
with_first p (q ∷ qs) = p ∷ qs

module _ {S G K : Type 0} where
  -- The child SA of the UE at `u`, which is changed through its pointer.
  unfoldable pub put_child : ℕ → ChildSa → Host S G K → Go (Host S G K)
  put_child u c h = do
    ue ← or_panic (lookup u h.context.ike_ues)
    ok (
        set_ike_ue u
          (record ue {
            child_security_association = insert c.inbound_spi c ue.child_security_association;
          })
          h)

module _ {S G K : Type 0} (env : AuthEnv S K) (connection a u : ℕ) (m : AuthRequest) where
  -- The response is sent, and the NGAP server goes on.
  signalled : Response → IkeSa → Host S G K → AuthStep S G K
  signalled r sa h =
      let next = (do
        ue ← or_panic (lookup u h.context.ike_ues)
        b ← or_panic ue.ike_security_association
        own ← or_panic (lookup b h.context.ike_sas)
        elim (ngap_id_load own.local_spi h.context) as (λ _. AuthStep S G K) [
          | none ↦ ok (h, to_ue r ∷ [])
          | some id ↦ ok (
            set_ike_sa a (record sa { state = (sa.state + 1) % 2 ^ 8 }) h,
            to_ue r
                ∷ to_ngap (start_tcp_signal_nas_msg_evt id)
                ∷ to_ngap (get_ngap_context_evt id (0 ∷ []))
                ∷ [],
          )
        ]) in
      if env.sends r then next else ok (h, to_ue r ∷ [])

  -- The rules are in the kernel, or not all of them.
  installed :
      Response → IkeSa → Host S G K → Applying K × Result SaError (Unit {0}) → AuthStep S G K
  unfolding signalled
  installed r sa h ((c, k), done _) = do
    h' ← put_child u c (record h { kernel = k })
    signalled r sa h'
  installed r sa h ((c, k), failed e) = do h' ← put_child u c (record h { kernel = k }); ok (h', [])

  -- With the generated keys.
  with_keys : Response → IkeSa → Host S G K → ChildSa → AuthStep S G K
  unfolding installed
  with_keys r sa h c = do
    let nat =
        behind_nat (sa.ue_behind_nat || sa.n3iwf_behind_nat) (env.n3iwf_port connection)
          (env.ue_port connection) c
    applied ←
        apply_xfrm_rule env.add false env.xfrm_iface_id (record nat { local_is_initiator = false })
          h.kernel
    installed r sa h applied

  -- CompleteChildSA has returned.
  with_child : Response → ℕ → IkeSa → Host S G K × Result SaError ChildSa → AuthStep S G K
  unfolding with_keys
  with_child r ip sa (h, failed e) = ok (h, [])
  with_child r ip sa (h, done c) = do
    let parsed =
        record (parse_ip_address_information (env.ue_ip connection) env.bind_addr env.gateway_ip ip
          c) { selected_ip_protocol = 6 }
    key ← or_panic c.child_sa_key
    elim (env.generate_key a key) as (λ _. AuthStep S G K) [
      | none ↦ put_child u parsed h >>= λ h'. ok (h', [])
      | some key' ↦ with_keys r sa h (record parsed { child_sa_key = some key' })
    ]

  -- With the inbound SPI, or none.
  with_spi : Bytes → ℕ → IkeSa → Host S G K → Option ℕ → AuthStep S G K
  unfolding with_child
  with_spi mac ip sa h none = ok (h, [])
  with_spi mac ip sa h (some inbound) = do
    proposals ← or_panic sa.ike_auth_response_sa
    p ← index proposals 0
    outbound ← outbound_of p.spi
    let given = with_first (record p { spi = put_uint32 inbound }) proposals
    let sa' = record sa { ike_auth_response_sa = some given }
    let h' = set_ike_sa a sa' h
    ue ← or_panic (lookup u h'.context.ike_ues)
    completed ←
        complete_child_sa env.new_child_sa_key u 1 outbound (some given)
          (set_ike_ue u (create_half_child_sa 1 inbound 18446744073709551615 ue) h')
    with_child (respond connection a m (established mac ip given)) ip sa' completed

  -- The address is allocated.
  with_address : Bytes → List (Option ℕ) → IkeSa → Option ℕ × Host S G K → AuthStep S G K
  unfolding with_spi draw_inbound_spi
  with_address mac draws sa (none, h) = ok (h, [])
  with_address mac draws sa (some ip, h) = do
    ue ← or_panic (lookup u h.context.ike_ues)
    let named = set_ike_ue u (record ue { ipsec_inner_ip = some ip }) h
    let resolved = (do
      inbound ← draw_inbound_spi h.context.child_sa draws
      with_spi mac ip sa
          (set_ike_ue u (record ue { ipsec_inner_ip = some ip; ipsec_inner_ip_addr = some ip }) h)
          inbound) in
        if env.resolves ip then resolved else ok (named, [])

  -- The UE is authenticated.
  pub authenticated : Bytes → List (Option ℕ) → Parsed → IkeSa → Host S G K → AuthStep S G K
  unfolding with_address
  authenticated secret draws p sa h = elim (env.prf a secret sa.responder_signed_octets) [
    | none ↦ ok (h, [])
    | some mac ↦
        let allocated = (do
          (ip, w) ← new_ipsec_inner_ue_ip env.pool env.gateway_ip env.fuel u h.context
          with_address mac draws sa (ip, record h { context = w })) in
        if requests_address p.configuration then allocated else ok (h, [])
  ]

  -- The AUTH payload and what it should be.
  compared : Bool → Bytes → List (Option ℕ) → Parsed → IkeSa → Host S G K → AuthStep S G K
  unfolding authenticated
  compared true secret draws p sa h = authenticated secret draws p sa h
  compared false secret draws p sa h =
      ok (h, to_ue (respond connection a m authentication_failed) ∷ [])

  verified : Bytes → List (Option ℕ) → Parsed → Option Bytes → IkeSa → Host S G K → AuthStep S G K
  unfolding compared
  verified secret draws p none sa h =
      ok (h, to_ue (respond connection a m authentication_failed) ∷ [])
  verified secret draws p (some given) sa h = elim (env.prf a secret sa.initiator_signed_octets) [
    | none ↦ ok (h, [])
    | some expected ↦ compared (bytes_equal given expected) secret draws p sa h
  ]

  -- The whole case.
  unfoldable pub post_signalling : List (Option ℕ) → Parsed → IkeSa → Host S G K → AuthStep S G K
  unfolding verified
  post_signalling draws p sa h = do
    ue ← or_panic (lookup u h.context.ike_ues)
    elim (env.prf a (or_nil ue.kn3iwf) key_pad) [
      | none ↦ ok (h, [])
      | some secret ↦ verified secret draws p p.authentication sa h
    ]
