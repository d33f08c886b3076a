-- ===== src/Eap5g/Ends.antt =====
-- How UnmarshalEAP5GData ends on any input.
use n3iwf.Prelude.{
  ℕ, ◌+◌, ◌-◌, ◌%◌, ◌^◌, ◌<◌, ◌≤◌, ◌≡◌, ◌≢◌, List, [], ◌∷◌, none, some, length, All, drop, take,
  length-drop, length-take, All-drop, All-take, arith, not_lt→ltb, le→leb, if◌then◌else◌, ◌==◌,
}
use native.Mathlib.Decide.{dec_lt}
use n3iwf.Prelude.Bytes.{Bytes, IsByte, uint16}
use n3iwf.Prelude.Outcome.{Outcome, ok, err, panic, out_of_fuel, ◌>>=◌}
use n3iwf.Eap5g.{
  Error, formatting, Aper, no_parameters, parameter_loop, parse_an_parameters, parse_nas_pdu,
  unmarshal_eap5g_data,
}
use n3iwf.Eap5g.Nssai.{Ends}
use n3iwf.Eap5g.Value.{Ends-bind, Ends-if}
use n3iwf.Eap5g.Loop.{Steps, parameter_loop-Ends}

parse_nas_pdu-Ends : (F : Type 0) (coded : Bytes) → Ends F (parse_nas_pdu coded)
unfolding parse_nas_pdu
parse_nas_pdu-Ends F [] = tt
parse_nas_pdu-Ends F (a ∷ []) = ground arith
parse_nas_pdu-Ends F (a ∷ b ∷ coded) = ground arith

module _ {G P : Type 0} (aper : Aper G P) where
  -- The parts that run once the length tests have passed.
  pub parse_an_parameters_fits :
      (fuel n : ℕ) (coded : Bytes)
      → n + 2 ≤ length coded
      → parse_an_parameters aper fuel coded n ≡ (
          if n == 0 then ok none else (do
            params ← parameter_loop aper fuel (take n (drop 2 coded)) no_parameters
            ok (some params)))
  unfolding parse_an_parameters
  parse_an_parameters_fits fuel n coded h = rw (le→leb 2 (length coded) (omega arith)) (
      let l : length (drop 2 coded) ≡ length coded - 2 = length-drop 2 coded in
      rw (not_lt→ltb (length (drop 2 coded)) n (omega arith))
        (rw (le→leb n (length (drop 2 coded)) (omega arith))))

  pub unmarshal_fits :
      (fuel a b hi lo : ℕ) (rest : Bytes)
      → uint16 hi lo ≤ length rest
      → unmarshal_eap5g_data aper fuel (a ∷ b ∷ hi ∷ lo ∷ rest) ≡ (do
        params ← parse_an_parameters aper fuel (hi ∷ lo ∷ rest) (uint16 hi lo)
        nas ← parse_nas_pdu (drop ((2 + uint16 hi lo) % 2 ^ 16) (hi ∷ lo ∷ rest))
        ok (params, nas))
  unfolding unmarshal_eap5g_data
  unmarshal_fits fuel a b hi lo rest h = ground arith

  unmarshal_short :
      (fuel a b hi lo : ℕ) (rest : Bytes)
      → length rest < uint16 hi lo
      → unmarshal_eap5g_data aper fuel (a ∷ b ∷ hi ∷ lo ∷ rest) ≡ err formatting
  unfolding unmarshal_eap5g_data
  unmarshal_short fuel a b hi lo rest h = ground arith

module _ {G P : Type 0} (aper : Aper G P) (F : Type 0) where
  parse_an_parameters-Ends :
      (fuel n : ℕ) (coded : Bytes)
      → All (Steps F) coded
      → n + 2 ≤ length coded
      → (fuel ≤ length coded → F)
      → Ends F (parse_an_parameters aper fuel coded n)
  parse_an_parameters-Ends fuel n coded h l k = rw (parse_an_parameters_fits aper fuel n coded l) (
      Ends-if F (n == 0) _ _ tt (
        Ends-bind F (parameter_loop aper fuel field no_parameters) _
          (parameter_loop-Ends aper F fuel field no_parameters
            (All-take (Steps F) n (drop 2 coded) (All-drop (Steps F) 2 coded h))
            (λ q. k (omega (arith, length-drop 2 coded, length-take n (drop 2 coded)))))
          (λ _ _. tt)))
    where
      field : Bytes
      field = take n (drop 2 coded)

  unmarshal-Ends :
      (fuel : ℕ) (coded : Bytes)
      → All (Steps F) coded
      → (fuel ≤ length coded → F)
      → Ends F (unmarshal_eap5g_data aper fuel coded)
  unmarshal-Ends fuel [] h k = unfold unmarshal_eap5g_data in tt
  unmarshal-Ends fuel (a ∷ []) h k = unfold unmarshal_eap5g_data in ground arith
  unmarshal-Ends fuel (a ∷ b ∷ []) h k = unfold unmarshal_eap5g_data in ground arith
  unmarshal-Ends fuel (a ∷ b ∷ c ∷ []) h k = unfold unmarshal_eap5g_data in ground arith
  unmarshal-Ends fuel (a ∷ b ∷ hi ∷ lo ∷ rest) h k = elim (dec_lt (length rest) (uint16 hi lo)) [
    | yes short ↦ rw (unmarshal_short aper fuel a b hi lo rest short) tt
    | no fits ↦ rw (unmarshal_fits aper fuel a b hi lo rest (omega arith)) (
        Ends-bind F (parse_an_parameters aper fuel (hi ∷ lo ∷ rest) (uint16 hi lo)) _
          (parse_an_parameters-Ends fuel (uint16 hi lo) (hi ∷ lo ∷ rest) h.1.1 (omega arith)
            (λ q. k (omega arith)))
          (λ params _.
            Ends-bind F (parse_nas_pdu (drop ((2 + uint16 hi lo) % 2 ^ 16) (hi ∷ lo ∷ rest))) _
              (parse_nas_pdu-Ends F _) (λ _ _. tt)))
  ]

ne_panic : {A : Type 0} (m : Outcome Error A) → Ends (Unit {0}) m → m ≢ panic
ne_panic (ok a) h e = cc
ne_panic (err a) h e = cc
ne_panic panic h e = h
ne_panic out_of_fuel h e = cc

All-mono : {P Q : ℕ → Type 0} (xs : List ℕ) → ((x : ℕ) → P x → Q x) → All P xs → All Q xs
All-mono [] f h = tt
All-mono (x ∷ xs) f h = (f x h.0, All-mono xs f h.1)

-- On whatever bytes a UE sends, and with any fuel, UnmarshalEAP5GData never indexes or slices out of
-- range.
pub unmarshal-ne-panic :
    {G P : Type 0} (aper : Aper G P) (fuel : ℕ) (coded : Bytes)
    → All IsByte coded
    → unmarshal_eap5g_data aper fuel coded ≢ panic
unmarshal-ne-panic aper fuel coded h =
    ne_panic _
      (unmarshal-Ends aper Unit fuel coded (All-mono coded (λ b k. (k, λ _. tt)) h) (λ _. tt))

-- On bytes among which there is no 254, UnmarshalEAP5GData terminates, with a result or an error,
-- within as many rounds of its loops as there are bytes.
pub unmarshal_terminates :
    {G P : Type 0} (aper : Aper G P) (fuel : ℕ) (coded : Bytes)
    → All (λ b. IsByte b × (b ≢ 254)) coded
    → length coded < fuel
    → Ends ⊥ (unmarshal_eap5g_data aper fuel coded)
unmarshal_terminates aper fuel coded h l = unmarshal-Ends aper ⊥ fuel coded h (λ q. omega arith)
