-- ===== src/Ike/Established/Verified.antt =====
-- The last round of IKE_AUTH before the AUTH payload is verified.
use n3iwf.Prelude.{
  All, ap, ℕ, ◌≡◌, refl, ◌∙◌, inl, inr, List, [], Option, none, some, Bool-cases, Option-cases,
}
use n3iwf.Prelude.Bytes.{Bytes, bytes_equal, bytes_equal→eq}
use n3iwf.Prelude.Map.{lookup}
use n3iwf.Prelude.Outcome.{After, weaken, or_panic-bind}
use n3iwf.Sa.{IkeSa, IkeUe}
use n3iwf.Context.Children.{Host}
use n3iwf.Ike.Exchange.{AuthRequest, Parsed, AuthSent, IsReply, AuthEnv}
use n3iwf.Ike.Established.Onward.{Onward, authenticated-Onward}
use n3iwf.Ike.Established.{key_pad, or_nil, compared, verified, post_signalling}

module _ {S G K : Type 0} (env : AuthEnv S K) (a u : ℕ) where
  -- Nothing has changed, or the AUTH payload of `p` is the MAC of the octets that the UE has signed,
  -- under the key of the UE, and the IKE SA goes one state on at most.
  pub data Verified (p : Parsed) (sa : IkeSa) (h : Host S G K)
      : Host S G K × List AuthSent → Type 0 where
    turned_away : (sent : List AuthSent) → All IsReply sent → Verified p sa h (h, sent)
    verified_by :
        {r : Host S G K × List AuthSent} (ue : IkeUe) (secret mac : Bytes)
        → lookup u h.context.ike_ues ≡ some ue
        → env.prf a (or_nil ue.kn3iwf) key_pad ≡ some secret
        → env.prf a secret sa.initiator_signed_octets ≡ some mac
        → p.authentication ≡ some mac
        → Onward a u sa.state r
        → Verified p sa h r

module _ {S G K : Type 0} (env : AuthEnv S K) (connection a u : ℕ) (m : AuthRequest) where
  verified-Verified :
      (secret : Bytes) (draws : List (Option ℕ)) (p : Parsed) (o : Option Bytes) (sa : IkeSa)
      (ue : IkeUe) (h : Host S G K)
      → p.authentication ≡ o
      → lookup u h.context.ike_ues ≡ some ue
      → env.prf a (or_nil ue.kn3iwf) key_pad ≡ some secret
      → lookup a h.context.ike_sas ≡ some sa
      → After (Verified env a u p sa h) (verified env connection a u m secret draws p o sa h)
  unfolding verified compared
  verified-Verified secret draws p none sa ue h e object k at = turned_away _ (tt, tt)
  verified-Verified secret draws p (some given) sa ue h e object k at =
      elim (Option-cases (env.prf a secret sa.initiator_signed_octets)) [
        | inl f ↦ rw (f, verified) (turned_away [] tt)
        | inr (mac, f) ↦ elim (Bool-cases (bytes_equal given mac)) [
          | inl b ↦
              rw (f, verified, b, compared)
                (weaken (Verified env a u p sa h) _
                  (authenticated-Onward env connection a u m secret draws p sa h at)
                  (λ r.
                    verified_by {r = r} ue secret mac object k f
                      (e ∙ ap some (bytes_equal→eq given mac b))))
          | inr b ↦ rw (f, verified, b, compared) (turned_away _ (tt, tt))
        ]
      ]

  pub post_signalling-Verified :
      (draws : List (Option ℕ)) (p : Parsed) (sa : IkeSa) (h : Host S G K)
      → lookup a h.context.ike_sas ≡ some sa
      → After (Verified env a u p sa h) (post_signalling env connection a u m draws p sa h)
  unfolding post_signalling
  post_signalling-Verified draws p sa h at =
      or_panic-bind (Verified env a u p sa h) (lookup u h.context.ike_ues) _ (λ ue object.
        elim (Option-cases (env.prf a (or_nil ue.kn3iwf) key_pad)) [
          | inl e ↦ rw e (turned_away [] tt)
          | inr (secret, e) ↦
              rw e (verified-Verified secret draws p p.authentication sa ue h refl object e at)
        ])
