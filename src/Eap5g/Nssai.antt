-- ===== src/Eap5g/Nssai.antt =====
-- The loop over the S-NSSAIs of a requested NSSAI.
use n3iwf.Prelude.{
  ℕ, zero, suc, ◌<◌, ◌≤◌, ◌≡◌, ◌≢◌, refl, List, [], ◌∷◌, ◌++◌, Option, none, some, length,
  length-append, append_assoc, append-nil, arith, ap, sym, ◌∙◌,
}
use native.Mathlib.Decide.{ℕ_discrete}
use n3iwf.Prelude.Bytes.{Bytes}
use n3iwf.Prelude.Outcome.{Outcome, ok, err, panic, out_of_fuel}
use n3iwf.Eap5g.{Error, formatting, Snssai, nssai_loop}

-- A run returned a value or an error. It did not panic, and where it lacks fuel `F` holds: with ⊥
-- for `F` the run is complete, with a trivial `F` it is free of panics.
abbrev pub Ends {ℓ} : {A : Type ℓ} → Type 0 → Outcome Error A → Type 0
Ends F (ok a) = Unit {0}
Ends F (err e) = Unit {0}
Ends F panic = ⊥
Ends F out_of_fuel = F

-- One round, by what its S-NSSAI is.
round_sst :
    (fuel sst : ℕ) (rest : Bytes) (list : List Snssai)
    → nssai_loop (suc fuel) (1 ∷ sst ∷ rest) list
      ≡ nssai_loop fuel rest (list ++ record { sst = sst; sd = none } ∷ [])
unfolding nssai_loop
round_sst fuel sst rest list = ground arith

round_sd :
    (fuel sst a b c : ℕ) (rest : Bytes) (list : List Snssai)
    → nssai_loop (suc fuel) (4 ∷ sst ∷ a ∷ b ∷ c ∷ rest) list
      ≡ nssai_loop fuel rest (list ++ record { sst = sst; sd = some (a, b, c) } ∷ [])
unfolding nssai_loop
round_sd fuel sst a b c rest list = ground arith

-- Any other length byte, or a value that is cut short, ends the loop with an error.
round_error :
    (fuel n sst : ℕ) (rest : Bytes) (list : List Snssai)
    → (n ≢ 1)
    → (n ≡ 4 → length rest < 3)
    → nssai_loop (suc fuel) (n ∷ sst ∷ rest) list ≡ err formatting
unfolding nssai_loop
round_error fuel zero sst rest list h k = ground arith
round_error fuel (suc zero) sst rest list h k = absurd (h refl)
round_error fuel (suc (suc zero)) sst [] list h k = ground arith
round_error fuel (suc (suc zero)) sst (a ∷ rest) list h k = ground arith
round_error fuel (suc (suc (suc zero))) sst [] list h k = ground arith
round_error fuel (suc (suc (suc zero))) sst (a ∷ []) list h k = ground arith
round_error fuel (suc (suc (suc zero))) sst (a ∷ b ∷ rest) list h k = ground arith
round_error fuel (suc (suc (suc (suc zero)))) sst rest list h k = let s = k refl in ground arith
round_error fuel (suc (suc (suc (suc (suc n))))) sst [] list h k = ground arith
round_error fuel (suc (suc (suc (suc (suc n))))) sst (a ∷ []) list h k = ground arith
round_error fuel (suc (suc (suc (suc (suc n))))) sst (a ∷ b ∷ []) list h k = ground arith
round_error fuel (suc (suc (suc (suc (suc n))))) sst (a ∷ b ∷ c ∷ []) list h k = ground arith
round_error fuel (suc (suc (suc (suc (suc n))))) sst (a ∷ b ∷ c ∷ d ∷ rest) list h k = ground arith

nssai_done :
    (fuel : ℕ) (value : Bytes) (list : List Snssai)
    → length value < 2
    → nssai_loop (suc fuel) value list ≡ ok list
unfolding nssai_loop
nssai_done fuel value list h = ground arith

module _ (F : Type 0) where
  Ends-unless_sd :
      (fuel n sst : ℕ) (rest : Bytes) (list : List Snssai)
      → (n ≡ 4 → length rest < 3)
      → Ends F (nssai_loop fuel rest (list ++ record { sst = sst; sd = none } ∷ []))
      → Ends F (nssai_loop (suc fuel) (n ∷ sst ∷ rest) list)
  Ends-unless_sd fuel n sst rest list short ends = elim (ℕ_discrete n 1) [
    | yes e ↦ rw e (rw round_sst ends)
    | no e ↦ rw (round_error fuel n sst rest list e short) tt
  ]

  -- The loop does not panic, and as much fuel as bytes, and one more, is enough.
  pub nssai_loop-Ends :
      (fuel : ℕ) (value : Bytes) (list : List Snssai)
      → (fuel ≤ length value → F)
      → Ends F (nssai_loop fuel value list)
  nssai_loop-Ends zero value list k = unfold nssai_loop in k (omega arith)
  nssai_loop-Ends (suc fuel) [] list k = rw (nssai_done fuel [] list (omega arith)) tt
  nssai_loop-Ends (suc fuel) (a ∷ []) list k = rw (nssai_done fuel (a ∷ []) list (omega arith)) tt
  nssai_loop-Ends (suc fuel) (n ∷ sst ∷ []) list k =
      Ends-unless_sd fuel n sst [] list (λ _. omega arith)
        (nssai_loop-Ends fuel [] _ (λ q. k (omega arith)))
  nssai_loop-Ends (suc fuel) (n ∷ sst ∷ a ∷ []) list k =
      Ends-unless_sd fuel n sst (a ∷ []) list (λ _. omega arith)
        (nssai_loop-Ends fuel (a ∷ []) _ (λ q. k (omega arith)))
  nssai_loop-Ends (suc fuel) (n ∷ sst ∷ a ∷ b ∷ []) list k =
      Ends-unless_sd fuel n sst (a ∷ b ∷ []) list (λ _. omega arith)
        (nssai_loop-Ends fuel (a ∷ b ∷ []) _ (λ q. k (omega arith)))
  nssai_loop-Ends (suc fuel) (n ∷ sst ∷ a ∷ b ∷ c ∷ rest) list k = elim (ℕ_discrete n 4) [
    | yes e ↦ rw e (rw round_sd (nssai_loop-Ends fuel rest _ (λ q. k (omega arith))))
    | no e ↦
        Ends-unless_sd fuel n sst (a ∷ b ∷ c ∷ rest) list (λ q. absurd (e q))
          (nssai_loop-Ends fuel (a ∷ b ∷ c ∷ rest) _ (λ q. k (omega arith)))
  ]

-- The coding of TS 24.501 that the loop accepts: a length, the SST, and the SD if there is one.
abbrev encode_sd : ℕ → Option (ℕ × ℕ × ℕ) → Bytes
encode_sd sst none = 1 ∷ sst ∷ []
encode_sd sst (some (a, b, c)) = 4 ∷ sst ∷ a ∷ b ∷ c ∷ []

abbrev pub encode_snssai : Snssai → Bytes
encode_snssai s = encode_sd s.sst s.sd

unfoldable pub encode_nssai : List Snssai → Bytes
encode_nssai [] = []
encode_nssai (s ∷ ss) = encode_snssai s ++ encode_nssai ss

round_item :
    (fuel sst : ℕ) (sd : Option (ℕ × ℕ × ℕ)) (rest : Bytes) (list : List Snssai)
    → nssai_loop (suc fuel) (encode_snssai (record { sst = sst; sd = sd }) ++ rest) list
      ≡ nssai_loop fuel rest (list ++ record { sst = sst; sd = sd } ∷ [])
round_item fuel sst none rest list = round_sst fuel sst rest list
round_item fuel sst (some (a, b, c)) rest list = round_sd fuel sst a b c rest list

length-encode_sd : (sst : ℕ) (sd : Option (ℕ × ℕ × ℕ)) → 1 ≤ length (encode_sd sst sd)
length-encode_sd sst none = omega arith
length-encode_sd sst (some (a, b, c)) = omega arith

pub length-encode_nssai : (items : List Snssai) → length items ≤ length (encode_nssai items)
unfolding encode_nssai
length-encode_nssai [] = omega arith
length-encode_nssai (s ∷ items) = omega (
  arith,
  length-append (encode_snssai s) (encode_nssai items),
  length-encode_sd s.sst s.sd,
  length-encode_nssai items,
)

-- The loop over the S-NSSAIs reads a coded list back, item by item and in order, with fuel above the
-- number of its items, and adds it to the list that it began with.
pub nssai_loop-encode :
    (items list : List Snssai) (fuel : ℕ)
    → length items < fuel
    → nssai_loop fuel (encode_nssai items) list ≡ ok (list ++ items)
unfolding encode_nssai
nssai_loop-encode items list zero h = absurd (omega arith)
nssai_loop-encode [] list (suc fuel) h = unfold nssai_loop in ap ok (sym (append-nil list))
nssai_loop-encode (s ∷ items) list (suc fuel) h =
    round_item fuel s.sst s.sd (encode_nssai items) list
    ∙ nssai_loop-encode items (list ++ s ∷ []) fuel (omega arith)
    ∙ ap ok (append_assoc list (s ∷ []) items)
