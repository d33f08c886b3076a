-- ===== src/Ike/Eap/Waiting.antt =====
-- Requests for an IKE SA in the last round of IKE_AUTH, one after the other.
use n3iwf.Prelude.{
  ◌++◌, All-append, ap, sym, some-injective, ℕ, ◌+◌, ◌%◌, ◌^◌, ◌≡◌, ◌∙◌, List, [], ◌∷◌, All, Option,
  some, inl, inr, arith,
}
use n3iwf.Prelude.Bytes.{Bytes}
use n3iwf.Prelude.Map.{lookup, lookup-insert_self}
use n3iwf.Prelude.Outcome.{ok, ◌>>=◌, After, always, weaken, bind-After}
use n3iwf.Sa.{IkeSa, IkeUe}
use n3iwf.Context.Children.{Host}
use n3iwf.Ike.Established.{key_pad, or_nil}
use n3iwf.Ike.Exchange.{
  AuthRequest, no_payloads, parse_payloads, AuthSent, IsReply, AuthEnv, AuthStep, set_ike_sa,
}
use n3iwf.Ike.Auth.{handle_ike_auth}
use n3iwf.Ike.Auth.Guarded.{
  Guarded, refused, started, passed_on, authenticated, handle_ike_auth-Guarded,
}

-- A request for the IKE SA, with its connection and what is drawn in its handler.
pub record Attempt : Type 0 where
  pub connection : ℕ
  pub request : AuthRequest
  pub draws : List (Option ℕ)
  pub drawn : Option ℕ

-- HandleIKEAUTH for one request after the other, for the IKE SA at `a`, with all that is sent.
pub attempts : {S G K : Type 0} → AuthEnv S K → ℕ → List Attempt → Host S G K → AuthStep S G K
attempts env a [] h = ok (h, [])
attempts env a (x ∷ xs) h = do
  first ← handle_ike_auth env x.connection a x.request x.draws x.drawn h
  rest ← attempts env a xs first.0
  ok (rest.0, first.1 ++ rest.1)

module _ {S G K : Type 0} (a u : ℕ) (key octets : Bytes) where
  -- The IKE SA at `a` is in the last round, with these octets of the initiator, for the UE at `u`, which
  -- has the key.
  pub record Waiting (h : Host S G K) : Type 0 where
    pub sa : IkeSa
    pub ue : IkeUe
    pub at_a : lookup a h.context.ike_sas ≡ some sa
    pub at_u : lookup u h.context.ike_ues ≡ some ue
    pub last : sa.state ≡ 2
    pub own : sa.ike_ue ≡ some u
    pub signed : sa.initiator_signed_octets ≡ octets
    pub stored : ue.kn3iwf ≡ some key

  -- The IKE SA waits still and responses to the UE were sent at most, or `P` holds.
  pub data Held (P : Type 0) : Host S G K × List AuthSent → Type 0 where
    waits :
        {h : Host S G K} {sent : List AuthSent} → Waiting h → All IsReply sent → Held P (h, sent)
    let_through : {r : Host S G K × List AuthSent} → P → Held P r

module _ {S K : Type 0} (env : AuthEnv S K) (a : ℕ) (key octets : Bytes) where
  -- The AUTH payload of the request is the PRF of the octets, under the key that `key` gives.
  pub record Authentic (m : AuthRequest) : Type 0 where
    pub secret : Bytes
    pub mac : Bytes
    pub derived : env.prf a key key_pad ≡ some secret
    pub over : env.prf a secret octets ≡ some mac
    pub given : (parse_payloads m.payloads no_payloads).authentication ≡ some mac

  -- One of the requests has such a payload.
  pub data Presented : List Attempt → Type 0 where
    now : {x : Attempt} {xs : List Attempt} → Authentic x.request → Presented (x ∷ xs)
    later : {x : Attempt} {xs : List Attempt} → Presented xs → Presented (x ∷ xs)

module _ {S G K : Type 0} (env : AuthEnv S K) (a u : ℕ) (key octets : Bytes) where
  guarded-Held :
      (connection n : ℕ) (m : AuthRequest) (h : Host S G K) (w : Waiting a u key octets h)
      (r : Host S G K × List AuthSent)
      → Guarded env connection a m
          (parse_payloads m.payloads no_payloads)
          (record w.sa { initiator_message_id = n })
          h
          r
      → Held a u key octets (Authentic env a key octets m) r
  unfolding set_ike_sa
  guarded-Held connection n m h w _ (refused sa' sent e (inl z) replies) =
      ground (arith, sym w.last ∙ z)
  guarded-Held connection n m h w _ (refused sa' sent e (inr same) replies) =
      waits
        (record {
          sa = sa';
          ue = w.ue;
          at_a = lookup-insert_self a sa' h.context.ike_sas;
          at_u = w.at_u;
          last = ap (λ x. x.state) same ∙ w.last;
          own = ap (λ x. x.ike_ue) same ∙ w.own;
          signed = ap (λ x. x.initiator_signed_octets) same ∙ w.signed;
          stored = w.stored;
        })
        replies
  guarded-Held connection n m h w _ (started sa' ps qs q s i z e1 e2 e3 e4 e5 e6) =
      ground (arith, sym w.last ∙ z)
  guarded-Held connection n m h w _ (passed_on e evt z e1 e2 e3) = ground (arith, sym w.last ∙ z)
  guarded-Held connection n m h w r (authenticated u' ue' secret mac z at' l e f given onward) =
      let same : u ≡ u' = some-injective (sym w.own ∙ at') in
      let object : w.ue ≡ ue' =
        some-injective (sym w.at_u ∙ (ap (λ i. lookup i h.context.ike_ues) same ∙ l)) in
      let stored : or_nil ue'.kn3iwf ≡ key =
        ap or_nil (ap (λ x. x.kn3iwf) (sym object) ∙ w.stored) in
      let_through (record {
        secret = secret;
        mac = mac;
        derived = ap (λ b. env.prf a b key_pad) (sym stored) ∙ e;
        over = ap (env.prf a secret) (sym w.signed) ∙ f;
        given = given;
      })

  attempt-Held :
      (x : Attempt) (h : Host S G K)
      → Waiting a u key octets h
      → After
          (Held a u key octets (Authentic env a key octets x.request))
          (handle_ike_auth env x.connection a x.request x.draws x.drawn h)
  attempt-Held x h w =
      weaken (Held a u key octets (Authentic env a key octets x.request)) _
        (handle_ike_auth-Guarded env x.connection a x.request x.draws x.drawn w.sa h w.at_a)
        (λ r. guarded-Held x.connection ((x.request.message_id + 1) % 2 ^ 32) x.request h w r)

  Held-next :
      (x : Attempt) (xs : List Attempt) (first rest : Host S G K × List AuthSent)
      → All IsReply first.1
      → Held a u key octets (Presented env a key octets xs) rest
      → Held a u key octets (Presented env a key octets (x ∷ xs)) (rest.0, first.1 ++ rest.1)
  Held-next x xs first _ replies (waits {h} {sent} w more) =
      waits w (All-append IsReply first.1 sent replies more)
  Held-next x xs first rest replies (let_through p) = let_through (later p)

  attempts_behind :
      (x : Attempt) (xs : List Attempt) (first : Host S G K × List AuthSent)
      → ((h : Host S G K)
          → Waiting a u key octets h
          → After (Held a u key octets (Presented env a key octets xs)) (attempts env a xs h))
      → Held a u key octets (Authentic env a key octets x.request) first
      → After
          (Held a u key octets (Presented env a key octets (x ∷ xs)))
          (attempts env a xs first.0 >>= λ rest. ok (rest.0, first.1 ++ rest.1))
  attempts_behind x xs first go (let_through p) =
      bind-After {P = λ r. Unit {0}} (Held a u key octets (Presented env a key octets (x ∷ xs)))
        (attempts env a xs first.0) _ (always _) (λ rest t. let_through (now p))
  attempts_behind x xs _ go (waits {h} {sent} w replies) =
      bind-After (Held a u key octets (Presented env a key octets (x ∷ xs))) (attempts env a xs h) _
        (go h w) (λ rest held. Held-next x xs (h, sent) rest replies held)

  pub attempts-Held :
      (xs : List Attempt) (h : Host S G K)
      → Waiting a u key octets h
      → After (Held a u key octets (Presented env a key octets xs)) (attempts env a xs h)
  unfolding attempts
  attempts-Held [] h w = waits w tt
  attempts-Held (x ∷ xs) h w =
      bind-After (Held a u key octets (Presented env a key octets (x ∷ xs)))
        (handle_ike_auth env x.connection a x.request x.draws x.drawn h) _ (attempt-Held x h w)
        (λ first held. attempts_behind x xs first (λ v. attempts-Held xs v) held)
