-- ===== src/Ike/Proposal/Esp.antt =====
-- The ESP proposal of the first child SA.
use n3iwf.Prelude.{
  ℕ, ◌≡◌, ◌≢◌, refl, Bool, true, false, List, [], ◌∷◌, Option, none, some, inl, inr, length, ◌==◌,
  arith, ==_iff, Bool-cases,
}
use n3iwf.Ike.Proposal.{
  Transform, Proposal, Pick, skip, absent, take, type_encryption, type_integrity,
  type_diffie_hellman, type_esn, encr_null, supported, is_transform_kernel_supported, pick,
  null_unprotected, esp_proposal, esp_end, esp_dh, esp_integrity, esp_combine, esp_one, is_empty,
}
use n3iwf.Ike.Proposal.First.{IsFirst, NonePasses, Search, missing, found, first_supported-Search}

-- What is taken from the transforms of one type.
pub data Picked (type : ℕ) (ts : List Transform) : Pick → Type 0 where
  none_proposed : ts ≡ [] → Picked type ts absent
  none_supported : ts ≢ [] → NonePasses (supported type) ts → Picked type ts skip
  first : {t : Transform} → IsFirst (supported type) ts t → Picked type ts (take t)

Search-Picked :
    (type : ℕ) (t : Transform) (ts : List Transform) (o : Option Transform)
    → Search (supported type) (t ∷ ts) o
    → Picked type (t ∷ ts) (elim o [ none ↦ skip | some u ↦ take u ])
Search-Picked type t ts _ (missing m) = none_supported (λ e. cc) m
Search-Picked type t ts _ (found f) = first f

pick-Picked : (type : ℕ) (ts : List Transform) → Picked type ts (pick type ts)
unfolding pick
pick-Picked type [] = none_proposed refl
pick-Picked type (t ∷ ts) = Search-Picked type t ts _ (first_supported-Search type (t ∷ ts))

no_dh_group : (t : Transform) → supported type_diffie_hellman t ≡ false
unfolding is_transform_kernel_supported
no_dh_group t = refl

-- A transform of an optional type: the first supported one, or none of a type that is not proposed.
pub data Optional (type : ℕ) (ts : List Transform) : Option Transform → Type 0 where
  not_proposed : ts ≡ [] → Optional type ts none
  proposed : {t : Transform} → IsFirst (supported type) ts t → Optional type ts (some t)

-- An acceptable ESP proposal, and the proposal that goes into the response.
pub record EspAccepted (p q : Proposal) : Type 0 where
  pub encr : Transform
  pub integ : Option Transform
  pub esn : Transform
  pub spi_length : length p.spi ≡ 4
  pub first_encr : IsFirst (supported type_encryption) p.encryption encr
  pub no_prf : is_empty p.pseudorandom ≡ true
  pub optional_integ : Optional type_integrity p.integrity integ
  pub no_dh : p.diffie_hellman ≡ []
  pub first_esn : IsFirst (supported type_esn) p.esn esn
  pub protected : encr.id ≡ encr_null → integ ≢ none
  pub answer : q ≡ esp_proposal p encr integ none esn

-- What a round may answer.
pub data Round (p : Proposal) : Option Proposal → Type 0 where
  continued : Round p none
  accepted : {q : Proposal} → EspAccepted p q → Round p (some q)

no_dh_picked :
    (ts : List Transform) {t : Transform} → IsFirst (supported type_diffie_hellman) ts t → ⊥
unfolding is_transform_kernel_supported
no_dh_picked ts f = let e : false ≡ true = f.passed in cc

unprotected :
    (encr : Transform) (integ : Option Transform)
    → null_unprotected encr integ ≡ false
    → encr.id ≡ encr_null
    → integ ≢ none
unfolding null_unprotected
unprotected encr none h e n = ground arith
unprotected encr (some t) h e n = cc

module _ (p : Proposal) (spi_length : length p.spi ≡ 4)
    (no_prf : is_empty p.pseudorandom ≡ true) where
  esp_end-Round :
      (encr : Transform) (integ : Option Transform) (esn : Transform)
      → IsFirst (supported type_encryption) p.encryption encr
      → Optional type_integrity p.integrity integ
      → p.diffie_hellman ≡ []
      → IsFirst (supported type_esn) p.esn esn
      → Round p (esp_end p encr integ none esn)
  unfolding esp_end
  esp_end-Round encr integ esn fe oi nd fs = elim (Bool-cases (null_unprotected encr integ)) [
    | inl h ↦ rw h continued
    | inr h ↦ rw h (
        accepted (record {
          encr = encr;
          integ = integ;
          esn = esn;
          spi_length = spi_length;
          first_encr = fe;
          no_prf = no_prf;
          optional_integ = oi;
          no_dh = nd;
          first_esn = fs;
          protected = unprotected encr integ h;
          answer = refl;
        }))
  ]

  esp_dh-Round :
      (encr : Transform) (integ : Option Transform) (dh esn : Pick)
      → IsFirst (supported type_encryption) p.encryption encr
      → Optional type_integrity p.integrity integ
      → Picked type_diffie_hellman p.diffie_hellman dh
      → Picked type_esn p.esn esn
      → Round p (esp_dh p encr integ dh esn)
  unfolding esp_dh
  esp_dh-Round encr integ _ _ fe oi (none_supported n m) s = continued
  esp_dh-Round encr integ _ _ fe oi (first f) s = absurd (no_dh_picked p.diffie_hellman f)
  esp_dh-Round encr integ _ _ fe oi (none_proposed e) (none_proposed e') = continued
  esp_dh-Round encr integ _ _ fe oi (none_proposed e) (none_supported n m) = continued
  esp_dh-Round encr integ _ _ fe oi (none_proposed e) (first {t = esn} f) =
      esp_end-Round encr integ esn fe oi e f

  esp_integrity-Round :
      (encr : Transform) (integ dh esn : Pick)
      → IsFirst (supported type_encryption) p.encryption encr
      → Picked type_integrity p.integrity integ
      → Picked type_diffie_hellman p.diffie_hellman dh
      → Picked type_esn p.esn esn
      → Round p (esp_integrity p encr integ dh esn)
  unfolding esp_integrity
  esp_integrity-Round encr _ dh esn fe (none_supported n m) d s = continued
  esp_integrity-Round encr _ dh esn fe (none_proposed e) d s =
      esp_dh-Round encr none dh esn fe (not_proposed e) d s
  esp_integrity-Round encr _ dh esn fe (first {t = integ} f) d s =
      esp_dh-Round encr (some integ) dh esn fe (proposed f) d s

esp_combine-Round :
    (p : Proposal) (four no_prf : Bool) (encr integ dh esn : Pick)
    → (length p.spi == 4) ≡ four
    → is_empty p.pseudorandom ≡ no_prf
    → Picked type_encryption p.encryption encr
    → Picked type_integrity p.integrity integ
    → Picked type_diffie_hellman p.diffie_hellman dh
    → Picked type_esn p.esn esn
    → Round p (esp_combine p four encr no_prf integ dh esn)
unfolding esp_combine
esp_combine-Round p false no_prf _ integ dh esn e n c i d s = continued
esp_combine-Round p true no_prf _ integ dh esn e n (none_proposed x) i d s = continued
esp_combine-Round p true no_prf _ integ dh esn e n (none_supported x m) i d s = continued
esp_combine-Round p true false _ integ dh esn e n (first f) i d s = continued
esp_combine-Round p true true _ integ dh esn e n (first {t = encr} f) i d s =
    esp_integrity-Round p ((==_iff (length p.spi) 4).0 e) n encr integ dh esn f i d s

pub esp_one-Round : (p : Proposal) → Round p (esp_one p)
unfolding esp_one
esp_one-Round p =
    esp_combine-Round p _ _ _ _ _ _ refl refl (pick-Picked type_encryption p.encryption)
      (pick-Picked type_integrity p.integrity) (pick-Picked type_diffie_hellman p.diffie_hellman)
      (pick-Picked type_esn p.esn)
