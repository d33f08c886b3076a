-- ===== src/Ike/Proposal/First.antt =====
-- The first transform of a list that passes a test.
use n3iwf.Prelude.{
  ℕ, ◌≡◌, refl, ap, Bool, true, false, List, [], ◌∷◌, ◌++◌, Option, none, some, All, Bool-cases,
  inl, inr, arith,
}
use n3iwf.Ike.Proposal.{Transform, choose, first_supported, supported}

-- `x` passes the test, and stands in the list behind nothing that passes it.
pub record IsFirst {ℓ} {A : Type ℓ} (test : A → Bool) (xs : List A) (x : A) : Type ℓ where
  pub before : List A
  pub after : List A
  pub split : xs ≡ before ++ x ∷ after
  pub failed : All (λ y. test y ≡ false) before
  pub passed : test x ≡ true

abbrev pub NonePasses {ℓ} : {A : Type ℓ} → (A → Bool) → List A → Type 0
NonePasses test xs = All (λ x. test x ≡ false) xs

pub IsFirst-head {ℓ} :
    {A : Type ℓ} (test : A → Bool) (x : A) (xs : List A) → test x ≡ true → IsFirst test (x ∷ xs) x
IsFirst-head test x xs h = record { before = []; after = xs; split = refl; failed = tt; passed = h }

pub IsFirst-cons {ℓ} :
    {A : Type ℓ} (test : A → Bool) (x y : A) (xs : List A)
    → test y ≡ false
    → IsFirst test xs x
    → IsFirst test (y ∷ xs) x
IsFirst-cons test x y xs h f = record {
  before = y ∷ f.before;
  after = f.after;
  split = ap (◌∷◌ y) f.split;
  failed = (h, f.failed);
  passed = f.passed;
}

-- What a search for the first passing element may answer.
pub data Search {ℓ} {A : Type ℓ} (test : A → Bool) (xs : List A) : Option A → Type ℓ where
  missing : NonePasses test xs → Search test xs none
  found : {x : A} → IsFirst test xs x → Search test xs (some x)

Search-cons {ℓ} :
    {A : Type ℓ} (test : A → Bool) (y : A) (xs : List A) (o : Option A)
    → test y ≡ false
    → Search test xs o
    → Search test (y ∷ xs) o
Search-cons test y xs o h (missing m) = missing (h, m)
Search-cons test y xs o h (found {x} f) = found (IsFirst-cons test x y xs h f)

choose_kept :
    (accept : Transform → Bool) (t : Transform) (ts : List Transform)
    → choose accept (some t) ts ≡ some t
unfolding choose
choose_kept accept t [] = refl
choose_kept accept t (u ∷ ts) = ground (arith, choose_kept accept t ts)

pub choose-Search :
    (accept : Transform → Bool) (ts : List Transform) → Search accept ts (choose accept none ts)
unfolding choose
choose-Search accept [] = missing tt
choose-Search accept (t ∷ ts) = elim (Bool-cases (accept t)) [
  | inl h ↦ rw h (rw (choose_kept accept t ts) (found (IsFirst-head accept t ts h)))
  | inr h ↦ rw h (Search-cons accept t ts _ h (choose-Search accept ts))
]

pub first_supported-Search :
    (type : ℕ) (ts : List Transform) → Search (supported type) ts (first_supported type ts)
unfolding first_supported
first_supported-Search type [] = missing tt
first_supported-Search type (t ∷ ts) = elim (Bool-cases (supported type t)) [
  | inl h ↦ rw h (found (IsFirst-head (supported type) t ts h))
  | inr h ↦ rw h (Search-cons (supported type) t ts _ h (first_supported-Search type ts))
]
