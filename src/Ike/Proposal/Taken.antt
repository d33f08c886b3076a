-- ===== src/Ike/Proposal/Taken.antt =====
-- The loop of HandleIKEAUTH takes each acceptable ESP proposal, and the first of a list.
use n3iwf.Prelude.{
  ℕ, ◌≡◌, ◌≢◌, refl, ap, true, false, List, [], ◌∷◌, ◌++◌, Option, none, some, All, inl, inr,
  length, ◌==◌, ==_iff, Bool-cases,
}
use n3iwf.Ike.Proposal.{
  Transform, Proposal, Pick, absent, take, type_encryption, type_integrity, type_diffie_hellman,
  type_esn, encr_null, supported, first_supported, pick, null_unprotected, esp_proposal, esp_end,
  esp_dh, esp_integrity, esp_combine, esp_one, or_rest, select_esp,
}
use n3iwf.Ike.Proposal.First.{IsFirst, NonePasses}
use n3iwf.Ike.Proposal.Esp.{
  Optional, not_proposed, proposed, EspAccepted, Round, continued, accepted, esp_one-Round,
}

first_supported-IsFirst :
    (type : ℕ) (before : List Transform) (t : Transform) (after : List Transform)
    → NonePasses (supported type) before
    → supported type t ≡ true
    → first_supported type (before ++ t ∷ after) ≡ some t
unfolding first_supported
first_supported-IsFirst type [] t after n h = rw h
first_supported-IsFirst type (x ∷ before) t after n h =
    rw n.0 (first_supported-IsFirst type before t after n.1 h)

pick-cons :
    (type : ℕ) (ts : List Transform) (t : Transform)
    → first_supported type ts ≡ some t
    → pick type ts ≡ take t
unfolding pick first_supported
pick-cons type [] t h = cc
pick-cons type (x ∷ ts) t h = rw (h, pick) refl

pick-IsFirst :
    (type : ℕ) (ts : List Transform) (t : Transform)
    → IsFirst (supported type) ts t
    → pick type ts ≡ take t
pick-IsFirst type ts t f =
    pick-cons type ts t
      (rw f.split (first_supported-IsFirst type f.before t f.after f.failed f.passed))

pick-nil : (type : ℕ) → pick type [] ≡ absent
unfolding pick
pick-nil type = refl

abbrev pick_of : Option Transform → Pick
pick_of none = absent
pick_of (some t) = take t

pick-Optional :
    (type : ℕ) (ts : List Transform) (o : Option Transform)
    → Optional type ts o
    → pick type ts ≡ pick_of o
pick-Optional type ts _ (not_proposed e) = rw e (pick-nil type)
pick-Optional type ts _ (proposed {t} f) = pick-IsFirst type ts t f

protected_takes :
    (encr : Transform) (integ : Option Transform)
    → (encr.id ≡ encr_null → integ ≢ none)
    → null_unprotected encr integ ≡ false
unfolding null_unprotected
protected_takes encr none h = elim (Bool-cases (encr.id == encr_null)) [
  | inl e ↦ absurd (h ((==_iff encr.id encr_null).0 e) refl)
  | inr e ↦ e
]
protected_takes encr (some t) h = refl

esp_integrity_takes :
    (p : Proposal) (encr : Transform) (integ : Option Transform) (esn : Transform)
    → null_unprotected encr integ ≡ false
    → esp_integrity p encr (pick_of integ) absent (take esn)
      ≡ some (esp_proposal p encr integ none esn)
unfolding esp_integrity esp_dh esp_end
esp_integrity_takes p encr none esn h = rw h refl
esp_integrity_takes p encr (some t) esn h = refl

esp_one_takes : (p q : Proposal) → EspAccepted p q → esp_one p ≡ some q
unfolding esp_one
esp_one_takes p q a =
    rw
      (
        a.answer,
        (==_iff (length p.spi) 4).1 a.spi_length,
        pick-IsFirst type_encryption p.encryption a.encr a.first_encr,
        a.no_prf,
        pick-Optional type_integrity p.integrity a.integ a.optional_integ,
        a.no_dh,
        pick-nil type_diffie_hellman,
        pick-IsFirst type_esn p.esn a.esn a.first_esn,
        esp_combine,
      )
      (esp_integrity_takes p a.encr a.integ a.esn (protected_takes a.encr a.integ a.protected))

-- A proposal for which no answer is acceptable.
pub Unacceptable : Proposal → Type 0
Unacceptable p = (q : Proposal) → ¬ EspAccepted p q

-- The answer to a list of proposals.
pub data EspSelected (ps : List Proposal) : List Proposal → Type 0 where
  refused : All Unacceptable ps → EspSelected ps []
  selected :
      {q : Proposal} (before : List Proposal) (p : Proposal) (after : List Proposal)
      → ps ≡ before ++ p ∷ after
      → All Unacceptable before
      → EspAccepted p q
      → EspSelected ps (q ∷ [])

EspSelected-cons :
    (p : Proposal) (ps qs : List Proposal)
    → Unacceptable p
    → EspSelected ps qs
    → EspSelected (p ∷ ps) qs
EspSelected-cons p ps _ r (refused rs) = refused (r, rs)
EspSelected-cons p ps _ r (selected before x after e rs a) =
    selected (p ∷ before) x after (ap (◌∷◌ p) e) (r, rs) a

EspSelected-Round :
    (p : Proposal) (ps qs : List Proposal) (o : Option Proposal)
    → esp_one p ≡ o
    → Round p o
    → EspSelected ps qs
    → EspSelected (p ∷ ps) (or_rest o qs)
unfolding or_rest Unacceptable
EspSelected-Round p ps qs _ e continued s =
    EspSelected-cons p ps qs (λ q a. let h : esp_one p ≡ some q = esp_one_takes p q a in cc) s
EspSelected-Round p ps qs _ e (accepted a) s = selected [] p ps refl tt a

-- HandleIKEAUTH answers with no ESP proposal exactly when none is acceptable. Otherwise it answers
-- for the first acceptable one. A proposal is acceptable when its SPI has 4 bytes, it has supported
-- encryption and ESN transforms, no pseudorandom function and no Diffie-Hellman group, an
-- integrity algorithm that is supported if any is proposed, and one at all if the encryption is
-- NULL. The answer has the first supported transform of each type.
pub select_esp-EspSelected : (ps : List Proposal) → EspSelected ps (select_esp ps)
unfolding select_esp
select_esp-EspSelected [] = refused tt
select_esp-EspSelected (p ∷ ps) =
    EspSelected-Round p ps _ _ refl (esp_one-Round p) (select_esp-EspSelected ps)
