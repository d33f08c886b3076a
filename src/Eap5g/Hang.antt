-- ===== src/Eap5g/Hang.antt =====
-- The endless loop: a length byte of 254 makes `2 + parameterLength` wrap to zero, and the loop over
-- the AN-parameters then cuts nothing off its field.
use n3iwf.Prelude.{◌-◌, ap, ◌∙◌, ℕ, zero, suc, ◌+◌, ◌<◌, ◌≤◌, ◌≡◌, refl, ◌∷◌, length, arith, take}
use n3iwf.Prelude.Bytes.{Bytes, uint16}
use n3iwf.Prelude.Outcome.{ok, out_of_fuel}
use n3iwf.Eap5g.{
  AnParameters, Aper, no_parameters, parameter_switch, parameter_loop, unmarshal_eap5g_data,
}
use n3iwf.Eap5g.Loop.{parameter_loop-round}
use n3iwf.Eap5g.Ends.{parse_an_parameters_fits, unmarshal_fits}

module _ {G P : Type 0} (aper : Aper G P) where
  parameter_switch_unknown :
      (fuel type n : ℕ) (field : Bytes) (params : AnParameters G P)
      → 4 < type
      → parameter_switch aper fuel type n field params ≡ ok params
  unfolding parameter_switch
  parameter_switch_unknown fuel type n field params h = ground arith

  parameter_loop_254 :
      (fuel type : ℕ) (rest : Bytes) (params : AnParameters G P)
      → 4 < type
      → parameter_loop aper fuel (type ∷ 254 ∷ rest) params ≡ out_of_fuel
  parameter_loop_254 zero type rest params h = unfold parameter_loop in refl
  parameter_loop_254 (suc fuel) type rest params h = ground (
    arith,
    parameter_loop-round aper fuel type 254 rest params,
    parameter_switch_unknown fuel type 254 (type ∷ 254 ∷ rest) params h,
    parameter_loop_254 fuel type rest params h,
  )

  take_two : (n a b : ℕ) (rest : Bytes) → 2 ≤ n → take n (a ∷ b ∷ rest) ≡ a ∷ b ∷ take (n - 2) rest
  take_two zero a b rest h = absurd (omega arith)
  take_two (suc zero) a b rest h = absurd (omega arith)
  take_two (suc (suc n)) a b rest h = ap (λ k. a ∷ b ∷ take k rest) (omega arith)

  -- Whenever the AN-parameters of a packet, within the length that the packet states for them, begin
  -- with a type above 4 and the length byte 254, no amount of fuel lets UnmarshalEAP5GData return:
  -- its loop over the AN-parameters is endless. Eight bytes are enough for such a packet.
  pub unmarshal_hangs :
      (fuel a b hi lo type : ℕ) (rest : Bytes)
      → 4 < type
      → 2 ≤ uint16 hi lo
      → uint16 hi lo ≤ length rest + 2
      → unmarshal_eap5g_data aper fuel (a ∷ b ∷ hi ∷ lo ∷ type ∷ 254 ∷ rest) ≡ out_of_fuel
  unmarshal_hangs fuel a b hi lo type rest known n fits =
      unmarshal_fits aper fuel a b hi lo (type ∷ 254 ∷ rest) (omega arith)
      ∙ rw
          (parse_an_parameters_fits aper fuel (uint16 hi lo) (hi ∷ lo ∷ type ∷ 254 ∷ rest)
            (omega arith))
          (rw (take_two (uint16 hi lo) type 254 rest n) (
            rw (parameter_loop_254 fuel type (take (uint16 hi lo - 2) rest) no_parameters known)
              (ground arith)))
