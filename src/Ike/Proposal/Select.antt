-- ===== src/Ike/Proposal/Select.antt =====
-- SelectProposal against a description of the answer.
use n3iwf.Prelude.{
  ◌≡◌, refl, ap, Bool, true, false, List, [], ◌∷◌, ◌++◌, Option, none, some, All, inl, inr, ◌⊎◌,
}
use n3iwf.Ike.Proposal.{
  Transform, Proposal, Decoders, accept_dh, chosen_proposal, combine, select_one, or_rest,
  select_proposal, is_empty,
}
use n3iwf.Ike.Proposal.First.{IsFirst, NonePasses, Search, missing, found, choose-Search}

-- Why a proposal is passed over: no acceptable transform of one of the four types, or ESN.
abbrev pub Rejected : Decoders → Proposal → Type 0
Rejected d p =
    NonePasses (accept_dh d) p.diffie_hellman
    ⊎ NonePasses d.encr p.encryption
    ⊎ NonePasses d.integ p.integrity
    ⊎ NonePasses d.prf p.pseudorandom
    ⊎ (is_empty p.esn ≡ false)

-- The answer for an accepted proposal: the first acceptable transform of each type, and nothing else.
pub record Accepted (d : Decoders) (p q : Proposal) : Type 0 where
  pub dh : Transform
  pub encr : Transform
  pub integ : Transform
  pub prf : Transform
  pub first_dh : IsFirst (accept_dh d) p.diffie_hellman dh
  pub first_encr : IsFirst d.encr p.encryption encr
  pub first_integ : IsFirst d.integ p.integrity integ
  pub first_prf : IsFirst d.prf p.pseudorandom prf
  pub no_esn : is_empty p.esn ≡ true
  pub answer : q ≡ chosen_proposal p dh encr integ prf

data Round (d : Decoders) (p : Proposal) : Option Proposal → Type 0 where
  rejected : Rejected d p → Round d p none
  accepted : {q : Proposal} → Accepted d p q → Round d p (some q)

combine-Round :
    (d : Decoders) (p : Proposal) (dh encr integ prf : Option Transform) (no_esn : Bool)
    → Search (accept_dh d) p.diffie_hellman dh
    → Search d.encr p.encryption encr
    → Search d.integ p.integrity integ
    → Search d.prf p.pseudorandom prf
    → is_empty p.esn ≡ no_esn
    → Round d p (combine p dh encr integ prf no_esn)
unfolding combine
combine-Round d p _ _ _ _ b (missing m) e i f n = rejected (inl m)
combine-Round d p _ _ _ _ b (found x) (missing m) i f n = rejected (inr (inl m))
combine-Round d p _ _ _ _ b (found x) (found y) (missing m) f n = rejected (inr (inr (inl m)))
combine-Round d p _ _ _ _ b (found x) (found y) (found z) (missing m) n =
    rejected (inr (inr (inr (inl m))))
combine-Round d p _ _ _ _ false (found x) (found y) (found z) (found w) n =
    rejected (inr (inr (inr (inr n))))
combine-Round d p _ _ _ _ true (found {x = dh} x) (found {x = encr} y) (found {x = integ} z)
      (found {x = prf} w) n =
    accepted (record {
      dh = dh;
      encr = encr;
      integ = integ;
      prf = prf;
      first_dh = x;
      first_encr = y;
      first_integ = z;
      first_prf = w;
      no_esn = n;
      answer = refl;
    })

select_one-Round : (d : Decoders) (p : Proposal) → Round d p (select_one d p)
unfolding select_one
select_one-Round d p =
    combine-Round d p _ _ _ _ _ (choose-Search (accept_dh d) p.diffie_hellman)
      (choose-Search d.encr p.encryption) (choose-Search d.integ p.integrity)
      (choose-Search d.prf p.pseudorandom) refl

-- The answer to a list of proposals.
pub data Selected (d : Decoders) (ps : List Proposal) : List Proposal → Type 0 where
  refused : All (Rejected d) ps → Selected d ps []
  selected :
      {q : Proposal} (before : List Proposal) (p : Proposal) (after : List Proposal)
      → ps ≡ before ++ p ∷ after
      → All (Rejected d) before
      → Accepted d p q
      → Selected d ps (q ∷ [])

Selected-cons :
    (d : Decoders) (p : Proposal) (ps qs : List Proposal)
    → Rejected d p
    → Selected d ps qs
    → Selected d (p ∷ ps) qs
Selected-cons d p ps _ r (refused rs) = refused (r, rs)
Selected-cons d p ps _ r (selected before x after e rs a) =
    selected (p ∷ before) x after (ap (◌∷◌ p) e) (r, rs) a

Selected-Round :
    (d : Decoders) (p : Proposal) (ps qs : List Proposal) (o : Option Proposal)
    → Round d p o
    → Selected d ps qs
    → Selected d (p ∷ ps) (or_rest o qs)
unfolding or_rest
Selected-Round d p ps qs _ (rejected r) s = Selected-cons d p ps qs r s
Selected-Round d p ps qs _ (accepted a) s = selected [] p ps refl tt a

-- SelectProposal answers with nothing exactly when each proposal lacks an acceptable transform of a
-- mandatory type (DH group 2 is not acceptable) or asks for ESN. Otherwise it answers with one
-- proposal, made from the first that is not so, with the first acceptable transform of each of the
-- four types and no other.
pub select_proposal-Selected :
    (d : Decoders) (ps : List Proposal) → Selected d ps (select_proposal d ps)
unfolding select_proposal
select_proposal-Selected d [] = refused tt
select_proposal-Selected d (p ∷ ps) =
    Selected-Round d p ps _ _ (select_one-Round d p) (select_proposal-Selected d ps)
