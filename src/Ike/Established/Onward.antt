-- ===== src/Ike/Established/Onward.antt =====
-- The IKE SA in the last round of IKE_AUTH, once the AUTH payload is verified.
use n3iwf.Prelude.{
  sym, some-injective, ◌==◌, ==_iff, All, ap, ℕ, ◌+◌, ◌%◌, ◌^◌, ◌≡◌, refl, ◌∙◌, inl, inr, List, [],
  ◌∷◌, Option, none, some, Bool-cases, Option-cases,
}
use n3iwf.Prelude.Bytes.{Bytes}
use n3iwf.Prelude.Map.{lookup, lookup-insert, lookup-insert_self}
use n3iwf.Prelude.Outcome.{After, always, bind-After, or_panic-bind, index}
use n3iwf.Sa.{IkeSa, IkeUe, ChildSa}
use n3iwf.Context.{ngap_id_load}
use n3iwf.Context.Allocate.{new_ipsec_inner_ue_ip, new_ipsec_inner_ue_ip-ike_sas}
use n3iwf.Context.Children.{Host, Result, done, failed, SaError, set_ike_ue, complete_child_sa}
use n3iwf.Context.Children.Associations.{complete_child_sa-ike_sas}
use n3iwf.Events.{start_tcp_signal_nas_msg_evt, get_ngap_context_evt}
use n3iwf.Ike.Xfrm.{Applying, apply_xfrm_rule}
use n3iwf.Ike.Exchange.{
  AuthRequest, Parsed, Response, AuthSent, IsReply, to_ue, to_ngap, AuthEnv, set_ike_sa,
}
use n3iwf.Ike.Established.{
  put_child, draw_inbound_spi, outbound_of, requests_address, signalled, installed, with_keys,
  with_child, with_spi, with_address, authenticated,
}

module _ {S G K : Type 0} where
  -- The IKE UE at `u` has an IKE SA, the SPI of which leads to the RAN UE NGAP ID.
  pub record Identified (u id : ℕ) (v : Host S G K) : Type 0 where
    pub ue : IkeUe
    pub i : ℕ
    pub own : IkeSa
    pub object : lookup u v.context.ike_ues ≡ some ue
    pub associated : ue.ike_security_association ≡ some i
    pub sa_object : lookup i v.context.ike_sas ≡ some own
    pub leads : ngap_id_load own.local_spi v.context ≡ some id

  -- The IKE SA at `a` is in the state `n` still, and responses to the UE are sent at most; or it is in
  -- the next one, and the response is followed by the two events that have the NGAP server go on with
  -- the RAN UE of the IKE UE at `u`.
  pub data Onward (a u n : ℕ) : Host S G K × List AuthSent → Type 0 where
    stayed :
        {v : Host S G K} {sent : List AuthSent} (sa' : IkeSa)
        → lookup a v.context.ike_sas ≡ some sa'
        → sa'.state ≡ n
        → All IsReply sent
        → Onward a u n (v, sent)
    moved :
        {v : Host S G K} (sa' : IkeSa) (r : Response) (id : ℕ)
        → lookup a v.context.ike_sas ≡ some sa'
        → sa'.state ≡ (n + 1) % 2 ^ 8
        → Identified u id v
        → Onward a u n (
          v,
          to_ue r
              ∷ to_ngap (start_tcp_signal_nas_msg_evt id)
              ∷ to_ngap (get_ngap_context_evt id (0 ∷ []))
              ∷ [],
        )

  put_child-ike_sas :
      (u : ℕ) (c : ChildSa) (h : Host S G K)
      → After (λ v. v.context.ike_sas ≡ h.context.ike_sas) (put_child u c h)
  unfolding put_child set_ike_ue
  put_child-ike_sas u c h = or_panic-bind _ (lookup u h.context.ike_ues) _ (λ ue e. refl)

module _ {S G K : Type 0} where
  -- An assignment to the IKE SA at `a` that leaves its SPI.
  set_ike_sa-Identified :
      (a u id i : ℕ) (ue : IkeUe) (own sa sa' : IkeSa) (h : Host S G K)
      → lookup a h.context.ike_sas ≡ some sa
      → sa'.local_spi ≡ sa.local_spi
      → lookup u h.context.ike_ues ≡ some ue
      → ue.ike_security_association ≡ some i
      → lookup i h.context.ike_sas ≡ some own
      → ngap_id_load own.local_spi h.context ≡ some id
      → Identified u id (set_ike_sa a sa' h)
  unfolding set_ike_sa
  set_ike_sa-Identified a u id i ue own sa sa' h at spi e f g l =
      let there = lookup-insert a i sa' h.context.ike_sas in
      elim (Bool-cases (a == i)) [
        | inl b ↦
            let same : sa ≡ own =
              some-injective
                (sym at ∙ (ap (λ j. lookup j h.context.ike_sas) ((==_iff a i).0 b) ∙ g)) in
            record {
              ue = ue;
              i = i;
              own = sa';
              object = e;
              associated = f;
              sa_object = there ∙ rw b refl;
              leads = ap (λ s. ngap_id_load s h.context) (spi ∙ ap (λ x. x.local_spi) same) ∙ l;
            }
        | inr b ↦ record {
          ue = ue;
          i = i;
          own = own;
          object = e;
          associated = f;
          sa_object = there ∙ rw b g;
          leads = l;
        }
      ]

module _ {S G K : Type 0} (env : AuthEnv S K) (connection a u : ℕ) (m : AuthRequest) where
  signalled-Onward :
      (r : Response) (sa : IkeSa) (h : Host S G K)
      → lookup a h.context.ike_sas ≡ some sa
      → After (Onward a u sa.state) (signalled env connection a u m r sa h)
  unfolding signalled set_ike_sa
  signalled-Onward r sa h at = elim (Bool-cases (env.sends r)) [
    | inr b ↦ rw (b, signalled) (stayed sa at refl (tt, tt))
    | inl b ↦
        rw (b, signalled)
          (or_panic-bind (Onward a u sa.state) (lookup u h.context.ike_ues) _ (λ ue e.
            or_panic-bind (Onward a u sa.state) ue.ike_security_association _ (λ i f.
              or_panic-bind (Onward a u sa.state) (lookup i h.context.ike_sas) _ (λ own g.
                elim (Option-cases (ngap_id_load own.local_spi h.context)) [
                  | inl l ↦ rw l (stayed sa at refl (tt, tt))
                  | inr (id, l) ↦ rw l (
                      moved (record sa { state = (sa.state + 1) % 2 ^ 8 }) r id
                        (lookup-insert_self a _ h.context.ike_sas) refl
                        (set_ike_sa-Identified a u id i ue own sa
                          (record sa { state = (sa.state + 1) % 2 ^ 8 }) h at refl e f g l))
                ]))))
  ]

  installed-Onward :
      (r : Response) (sa : IkeSa) (h : Host S G K) (x : Applying K × Result SaError (Unit {0}))
      → lookup a h.context.ike_sas ≡ some sa
      → After (Onward a u sa.state) (installed env connection a u m r sa h x)
  unfolding installed
  installed-Onward r sa h ((c, k), done d) at =
      bind-After (Onward a u sa.state) (put_child u c (record h { kernel = k })) _
        (put_child-ike_sas u c (record h { kernel = k }))
        (λ v e. signalled-Onward r sa v (ap (lookup a) e ∙ at))
  installed-Onward r sa h ((c, k), failed x) at =
      bind-After (Onward a u sa.state) (put_child u c (record h { kernel = k })) _
        (put_child-ike_sas u c (record h { kernel = k }))
        (λ v e. stayed sa (ap (lookup a) e ∙ at) refl tt)

  with_keys-Onward :
      (r : Response) (sa : IkeSa) (h : Host S G K) (c : ChildSa)
      → lookup a h.context.ike_sas ≡ some sa
      → After (Onward a u sa.state) (with_keys env connection a u m r sa h c)
  unfolding with_keys
  with_keys-Onward r sa h c at =
      bind-After {P = λ x. Unit {0}} (Onward a u sa.state) (apply_xfrm_rule _ _ _ _ _) _ (always _)
        (λ x e. installed-Onward r sa h x at)

  with_child-Onward :
      (r : Response) (ip : ℕ) (sa : IkeSa) (h : Host S G K) (o : Result SaError ChildSa)
      → lookup a h.context.ike_sas ≡ some sa
      → After (Onward a u sa.state) (with_child env connection a u m r ip sa (h, o))
  unfolding with_child
  with_child-Onward r ip sa h (failed x) at = stayed sa at refl tt
  with_child-Onward r ip sa h (done c) at =
      or_panic-bind (Onward a u sa.state) c.child_sa_key _ (λ key e.
        elim (Option-cases (env.generate_key a key)) [
          | inl f ↦ rw f (
              bind-After (Onward a u sa.state) (put_child u _ h) _ (put_child-ike_sas u _ h)
                (λ v g. stayed sa (ap (lookup a) g ∙ at) refl tt))
          | inr (key', f) ↦ rw f (with_keys-Onward r sa h _ at)
        ])

  with_spi-Onward :
      (mac : Bytes) (ip : ℕ) (sa : IkeSa) (h : Host S G K) (o : Option ℕ)
      → lookup a h.context.ike_sas ≡ some sa
      → After (Onward a u sa.state) (with_spi env connection a u m mac ip sa h o)
  unfolding with_spi set_ike_sa set_ike_ue
  with_spi-Onward mac ip sa h none at = stayed sa at refl tt
  with_spi-Onward mac ip sa h (some inbound) at =
      or_panic-bind (Onward a u sa.state) sa.ike_auth_response_sa _ (λ ps e.
        bind-After {P = λ x. Unit {0}} (Onward a u sa.state) (index ps 0) _ (always _) (λ p f.
          bind-After {P = λ x. Unit {0}} (Onward a u sa.state) (outbound_of p.spi) _ (always _)
            (λ outbound g.
              or_panic-bind (Onward a u sa.state) (lookup u h.context.ike_ues) _ (λ ue l.
                bind-After (Onward a u sa.state) (complete_child_sa _ u 1 outbound _ _) _
                  (complete_child_sa-ike_sas _ u 1 outbound _ _)
                  (λ x same.
                    with_child-Onward _ ip _ x.0 x.1
                      (ap (lookup a) same ∙ lookup-insert_self a _ h.context.ike_sas))))))

  with_address-Onward :
      (mac : Bytes) (draws : List (Option ℕ)) (sa : IkeSa) (o : Option ℕ) (h : Host S G K)
      → lookup a h.context.ike_sas ≡ some sa
      → After (Onward a u sa.state) (with_address env connection a u m mac draws sa (o, h))
  unfolding with_address set_ike_ue
  with_address-Onward mac draws sa none h at = stayed sa at refl tt
  with_address-Onward mac draws sa (some ip) h at =
      or_panic-bind (Onward a u sa.state) (lookup u h.context.ike_ues) _ (λ ue e.
        elim (Bool-cases (env.resolves ip)) [
          | inr b ↦ rw b (stayed sa at refl tt)
          | inl b ↦ rw b (
              bind-After {P = λ x. Unit {0}} (Onward a u sa.state)
                (draw_inbound_spi h.context.child_sa draws) _ (always _)
                (λ o f. with_spi-Onward mac ip sa _ o at))
        ])

  pub authenticated-Onward :
      (secret : Bytes) (draws : List (Option ℕ)) (p : Parsed) (sa : IkeSa) (h : Host S G K)
      → lookup a h.context.ike_sas ≡ some sa
      → After (Onward a u sa.state) (authenticated env connection a u m secret draws p sa h)
  unfolding authenticated
  authenticated-Onward secret draws p sa h at =
      elim (Option-cases (env.prf a secret sa.responder_signed_octets)) [
        | inl e ↦ rw (e, authenticated) (stayed sa at refl tt)
        | inr (mac, e) ↦ elim (Bool-cases (requests_address p.configuration)) [
          | inr b ↦ rw (e, b, authenticated) (stayed sa at refl tt)
          | inl b ↦
              rw (e, b, authenticated)
                (bind-After (Onward a u sa.state)
                  (new_ipsec_inner_ue_ip env.pool env.gateway_ip env.fuel u h.context) _
                  (new_ipsec_inner_ue_ip-ike_sas env.pool env.gateway_ip env.fuel u h.context)
                  (λ x same.
                    with_address-Onward mac draws sa x.0 (record h { context = x.1 })
                      (ap (lookup a) same ∙ at)))
        ]
      ]
