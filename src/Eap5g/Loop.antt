-- ===== src/Eap5g/Loop.antt =====
-- The loop over the AN-parameters: it ends unless a length byte wraps the step to zero.
use n3iwf.Prelude.{
  ℕ, zero, suc, ◌+◌, ◌-◌, ◌%◌, ◌^◌, ◌<◌, ◌≤◌, ◌≡◌, [], ◌∷◌, length, All, drop, length-drop,
  All-drop, arith, ltb, lt→ltb, not_lt→ltb, le→leb, not,
}
use native.Mathlib.Decide.{ℕ_discrete, dec_lt}
use n3iwf.Prelude.Bytes.{Bytes}
use n3iwf.Prelude.Outcome.{Outcome, ok, ◌>>=◌, ◌>>◌, guard, slice_from}
use n3iwf.Eap5g.{Error, malformed, AnParameters, Aper, parameter_switch, parameter_loop}
use n3iwf.Eap5g.Nssai.{Ends}
use n3iwf.Eap5g.Value.{parameter_switch-Ends, Ends-bind}

module _ {G P : Type 0} (aper : Aper G P) where
  -- One round on a type, a length and the rest.
  abbrev pub round : ℕ → ℕ → ℕ → Bytes → AnParameters G P → Outcome Error (AnParameters G P)
  round fuel type n rest params = do
    guard (not (ltb (length (type ∷ n ∷ rest)) ((2 + n) % 2 ^ 8))) malformed
    params' ← parameter_switch aper fuel type n (type ∷ n ∷ rest) params
    next ← slice_from (type ∷ n ∷ rest) ((2 + n) % 2 ^ 8)
    parameter_loop aper fuel next params'

  pub parameter_loop-round :
      (fuel type n : ℕ) (rest : Bytes) (params : AnParameters G P)
      → parameter_loop aper (suc fuel) (type ∷ n ∷ rest) params ≡ round fuel type n rest params
  unfolding parameter_loop
  parameter_loop-round fuel type n rest params = ground arith

  pub parameter_loop-done :
      (fuel : ℕ) (field : Bytes) (params : AnParameters G P)
      → length field < 2
      → parameter_loop aper (suc fuel) field params ≡ ok params
  unfolding parameter_loop
  parameter_loop-done fuel field params h = ground arith

-- A length byte of 254 makes the step `2 + n` wrap to zero.
abbrev pub Steps : Type 0 → ℕ → Type 0
Steps F b = (b < 256) × (b ≡ 254 → F)

module _ {G P : Type 0} (aper : Aper G P) (F : Type 0) where
  pub parameter_loop-Ends :
      (fuel : ℕ) (field : Bytes) (params : AnParameters G P)
      → All (Steps F) field
      → (fuel ≤ length field → F)
      → Ends F (parameter_loop aper fuel field params)
  parameter_loop-Ends zero field params h k = unfold parameter_loop in k (omega arith)
  parameter_loop-Ends (suc fuel) [] params h k =
      rw (parameter_loop-done aper fuel [] params (omega arith)) tt
  parameter_loop-Ends (suc fuel) (a ∷ []) params h k =
      rw (parameter_loop-done aper fuel (a ∷ []) params (omega arith)) tt
  parameter_loop-Ends (suc fuel) (type ∷ n ∷ rest) params h k =
      let field : Bytes = type ∷ n ∷ rest in
      let step : ℕ = (2 + n) % 2 ^ 8 in
      let shorter : fuel ≤ length (drop step field) → F = λ q. elim (ℕ_discrete n 254) [
        | yes e ↦ h.1.0.1 e
        | no e ↦ k (
            let l : length (drop step field) ≡ length field - step = length-drop step field in
            omega arith)
      ] in
      rw (parameter_loop-round aper fuel type n rest params) (elim (dec_lt (length field) step) [
        | yes long ↦ rw (lt→ltb _ _ long) tt
        | no fits ↦ rw (not_lt→ltb _ _ fits) (
            Ends-bind F (parameter_switch aper fuel type n field params) _
              (parameter_switch-Ends aper F fuel type n field params (omega arith)
                (λ q. k (omega arith)))
              (λ params' _. rw (le→leb step (length field) (omega arith)) (
                parameter_loop-Ends fuel (drop step field) params' (All-drop (Steps F) step field h)
                  shorter)))
      ])
