-- ===== src/Eap5g/Value.antt =====
-- One AN-parameter: the switch on its type.
use n3iwf.Prelude.{
  Bool, ℕ, suc, ◌+◌, ◌≤◌, ◌≡◌, refl, [], ◌∷◌, length, drop, length-drop, length-take, arith,
  if◌then◌else◌, ◌==◌, true, false,
}
use n3iwf.Prelude.Bytes.{Bytes}
use n3iwf.Prelude.Outcome.{Outcome, ok, err, panic, out_of_fuel, ◌>>=◌}
use n3iwf.Eap5g.{
  Error, nssai_loop, AnParameters, Aper, guami_case, plmn_case, cause_case, nssai_case,
  parameter_value, with_value, parameter_switch,
}
use n3iwf.Eap5g.Nssai.{Ends, nssai_loop-Ends}

module _ (F : Type 0) where
  pub Ends-bind :
      {A B : Type 0} (m : Outcome Error A) (f : A → Outcome Error B)
      → Ends F m
      → ((a : A) → m ≡ ok a → Ends F (f a))
      → Ends F (m >>= f)
  Ends-bind (ok a) f h k = k a refl
  Ends-bind (err e) f h k = tt
  Ends-bind panic f h k = h
  Ends-bind out_of_fuel f h k = h

  pub Ends-if :
      {A : Type 0} (b : Bool) (x y : Outcome Error A)
      → Ends F x
      → Ends F y
      → Ends F (if b then x else y)
  Ends-if true x y hx hy = hx
  Ends-if false x y hx hy = hy

-- The value is cut out of the field, and never larger than what follows the two header bytes.
parameter_value-length :
    {G P : Type 0} (aper : Aper G P) (n : ℕ) (field v : Bytes)
    → parameter_value aper n field ≡ ok v
    → length v + 2 ≤ length field
unfolding parameter_value
parameter_value-length aper n field v h =
    ground (arith, length-drop 2 field, length-take n (drop 2 field))

module _ {G P : Type 0} (aper : Aper G P) (F : Type 0) where
  guami_case-Ends :
      (value : Bytes) (params : AnParameters G P) → Ends F (guami_case aper value params)
  unfolding guami_case
  guami_case-Ends value params = ground arith

  plmn_case-Ends :
      (value : Bytes) (params : AnParameters G P) → Ends F (plmn_case aper value params)
  unfolding plmn_case
  plmn_case-Ends value params = ground arith

  cause_case-Ends :
      (value : Bytes) (params : AnParameters G P) → Ends F (cause_case aper value params)
  unfolding cause_case
  cause_case-Ends [] params = ground arith
  cause_case-Ends (a ∷ value) params = ground arith

  nssai_case-Ends :
      (fuel : ℕ) (value : Bytes) (params : AnParameters G P)
      → (fuel ≤ length value → F)
      → Ends F (nssai_case aper fuel value params)
  unfolding nssai_case
  nssai_case-Ends fuel value params h =
      Ends-bind F (nssai_loop fuel value []) _ (nssai_loop-Ends F fuel value [] h) (λ list e. tt)

  parameter_value-Ends :
      (n : ℕ) (field : Bytes) → 2 ≤ length field → Ends F (parameter_value aper n field)
  unfolding parameter_value
  parameter_value-Ends n field h = ground arith

  with_value-Ends :
      (n : ℕ) (field : Bytes) (params : AnParameters G P)
      (read : Bytes → Outcome Error (AnParameters G P))
      → 2 ≤ length field
      → ((v : Bytes) → length v + 2 ≤ length field → Ends F (read v))
      → Ends F (with_value aper n field params read)
  unfolding with_value
  with_value-Ends n field params read h k = Ends-if F (n == 0) _ _ tt (
      Ends-bind F (parameter_value aper n field) read (parameter_value-Ends n field h)
        (λ v e. k v (parameter_value-length aper n field v e)))

  pub parameter_switch-Ends :
      (fuel type n : ℕ) (field : Bytes) (params : AnParameters G P)
      → 2 ≤ length field
      → (suc fuel ≤ length field → F)
      → Ends F (parameter_switch aper fuel type n field params)
  unfolding parameter_switch
  parameter_switch-Ends fuel type n field params h k =
      Ends-if F (type == 1) _ _
        (with_value-Ends n field params _ h (λ v _. guami_case-Ends v params))
        (Ends-if F (type == 2) _ _
          (with_value-Ends n field params _ h (λ v _. plmn_case-Ends v params))
          (Ends-if F (type == 3) _ _
            (with_value-Ends n field params _ h
              (λ v l. nssai_case-Ends fuel v params (λ q. k (omega arith))))
            (Ends-if F (type == 4) _ _
              (with_value-Ends n field params _ h (λ v _. cause_case-Ends v params)) tt)))
