-- ===== src/Eap5g/RoundTrip.antt =====
-- A packet built as TS 24.502 lays it out, and what UnmarshalEAP5GData reads from it.
use mathlib.Core.List.{foldl}
use n3iwf.Prelude.{
  ◌∙◌, ◌/◌, ℕ, zero, suc, ◌+◌, ◌%◌, ◌^◌, ◌<◌, ◌≤◌, ◌≡◌, List, [], ◌∷◌, ◌++◌, length, arith, some,
  take-append_length, take-length, drop-append_length, length-append, All,
}
use n3iwf.Prelude.Bytes.{Bytes, uint16, put_uint16}
use n3iwf.Prelude.Outcome.{Outcome, ok}
use n3iwf.Eap5g.{
  Error, Snssai, AnParameters, Aper, no_parameters, establishment_cause, guami_case, plmn_case,
  nssai_case, cause_case, with_value, parameter_value, parameter_switch, parameter_loop,
  parse_nas_pdu, unmarshal_eap5g_data,
}
use n3iwf.Eap5g.Nssai.{encode_nssai, length-encode_nssai, nssai_loop-encode}
use n3iwf.Eap5g.Loop.{parameter_loop-round, parameter_loop-done}
use n3iwf.Eap5g.Ends.{parse_an_parameters_fits, unmarshal_fits}

-- An AN-parameter with its value as coded, and what the decoder makes of it.
pub data Parameter (G P : Type 0) : Type 0 where
  guami : Bytes → G → Parameter G P
  plmn : Bytes → P → Parameter G P
  nssai : List Snssai → Parameter G P
  cause : ℕ → Parameter G P
  other : ℕ → Bytes → Parameter G P

module _ {G P : Type 0} where
  abbrev pub type_of : Parameter G P → ℕ
  type_of (guami v g) = 1
  type_of (plmn v p) = 2
  type_of (nssai items) = 3
  type_of (cause b) = 4
  type_of (other t v) = t

  abbrev pub value_of : Parameter G P → Bytes
  value_of (guami v g) = v
  value_of (plmn v p) = v
  value_of (nssai items) = encode_nssai items
  value_of (cause b) = b ∷ []
  value_of (other t v) = v

  abbrev pub encode : Parameter G P → Bytes
  encode p = type_of p ∷ length (value_of p) ∷ value_of p

  unfoldable pub encode_all : List (Parameter G P) → Bytes
  encode_all [] = []
  encode_all (p ∷ ps) = encode p ++ encode_all ps

  -- A later parameter of one type replaces an earlier one.
  abbrev pub apply : AnParameters G P → Parameter G P → AnParameters G P
  apply r (guami v g) = record r { guami = some g }
  apply r (plmn v p) = record r { selected_plmn = some p }
  apply r (nssai items) = record r { requested_nssai = some items }
  apply r (cause b) = record r { establishment_cause = some (establishment_cause b) }
  apply r (other t v) = r

module _ {G P : Type 0} (aper : Aper G P) where
  -- The lengths that TS 24.502 asks for, and values that fit a length byte below 254.
  abbrev pub IsSound : Parameter G P → Type 0
  IsSound (guami v g) = (length v ≡ 6) × (aper.decode_guami (0 ∷ v) ≡ some g)
  IsSound (plmn v p) = (length v ≡ 3) × (aper.decode_plmn (0 ∷ v) ≡ some p)
  IsSound (nssai items) = (1 ≤ length items) × (length (encode_nssai items) ≤ 253)
  IsSound (cause b) = Unit
  IsSound (other t v) = (4 < t) × (length v ≤ 253)

  parameter_value_of :
      (t : ℕ) (v rest : Bytes) → parameter_value aper (length v) (t ∷ length v ∷ (v ++ rest)) ≡ ok v
  unfolding parameter_value
  parameter_value_of t v rest = ground (arith, length-append v rest, take-append_length v rest)

  with_value_of :
      (t : ℕ) (v rest : Bytes) (params : AnParameters G P)
      (read : Bytes → Outcome Error (AnParameters G P))
      → 1 ≤ length v
      → with_value aper (length v) (t ∷ length v ∷ (v ++ rest)) params read ≡ read v
  unfolding with_value
  with_value_of t v rest params read h = ground (arith, parameter_value_of t v rest)

  parameter_switch_of :
      (fuel : ℕ) (p : Parameter G P) (rest : Bytes) (params : AnParameters G P)
      → IsSound p
      → length (value_of p) < fuel
      → parameter_switch aper fuel (type_of p) (length (value_of p)) (encode p ++ rest) params
        ≡ ok (apply params p)
  unfolding parameter_switch guami_case plmn_case nssai_case cause_case
  parameter_switch_of fuel (guami v g) rest params s f =
      ground (arith, with_value_of 1 v rest params (λ v. guami_case aper v params))
  parameter_switch_of fuel (plmn v p) rest params s f =
      ground (arith, with_value_of 2 v rest params (λ v. plmn_case aper v params))
  parameter_switch_of fuel (nssai items) rest params s f = ground (
    arith,
    with_value_of 3 (encode_nssai items) rest params (λ v. nssai_case aper fuel v params),
    length-encode_nssai items,
    nssai_loop-encode items [] fuel,
  )
  parameter_switch_of fuel (cause b) rest params s f =
      ground (arith, with_value_of 4 (b ∷ []) rest params (λ v. cause_case aper v params))
  parameter_switch_of fuel (other t v) rest params s f = ground arith

  length-value_of : (p : Parameter G P) → IsSound p → length (value_of p) ≤ 253
  length-value_of (guami v g) s = omega arith
  length-value_of (plmn v p) s = omega arith
  length-value_of (nssai items) s = s.1
  length-value_of (cause b) s = omega arith
  length-value_of (other t v) s = s.1

  parameter_loop_of :
      (fuel : ℕ) (p : Parameter G P) (rest : Bytes) (params : AnParameters G P)
      → IsSound p
      → length (value_of p) < fuel
      → parameter_loop aper (suc fuel) (encode p ++ rest) params
        ≡ parameter_loop aper fuel rest (apply params p)
  parameter_loop_of fuel p rest params s f =
      let n = length (value_of p) in
      let small : (2 + n) % 2 ^ 8 ≡ suc (suc n) = omega (arith, length-value_of p s) in
      ground (
        arith,
        parameter_loop-round aper fuel (type_of p) n (value_of p ++ rest) params,
        parameter_switch_of fuel p rest params s f,
        small,
        length-append (value_of p) rest,
        drop-append_length (value_of p) rest,
      )

  parameter_loop-All :
      (fuel : ℕ) (ps : List (Parameter G P)) (params : AnParameters G P)
      → All IsSound ps
      → length (encode_all ps) < fuel
      → parameter_loop aper fuel (encode_all ps) params ≡ ok (foldl apply params ps)
  unfolding encode_all
  parameter_loop-All zero ps params s f = absurd (omega arith)
  parameter_loop-All (suc fuel) [] params s f =
      parameter_loop-done aper fuel [] params (omega arith)
  parameter_loop-All (suc fuel) (p ∷ ps) params s f =
      let l : length (encode p ++ encode_all ps)
          ≡ length (value_of p) + 2 + length (encode_all ps) =
        omega (arith, length-append (value_of p) (encode_all ps)) in
      parameter_loop_of fuel p (encode_all ps) params s.0 (omega arith)
      ∙ parameter_loop-All fuel ps (apply params p) s.1 (omega arith)

  parse_nas_pdu_of :
      (nas : Bytes)
      → 1 ≤ length nas
      → length nas < 2 ^ 16
      → parse_nas_pdu (put_uint16 (length nas) ++ nas) ≡ ok nas
  unfolding parse_nas_pdu
  parse_nas_pdu_of nas h k = ground (arith, take-length nas)

  unmarshal_body :
      (fuel id spare : ℕ) (body tail nas : Bytes) (r : AnParameters G P)
      → 1 ≤ length body
      → length body < 65534
      → parameter_loop aper fuel body no_parameters ≡ ok r
      → parse_nas_pdu tail ≡ ok nas
      → unmarshal_eap5g_data aper fuel (id ∷ spare ∷ (put_uint16 (length body) ++ (body ++ tail)))
        ≡ ok (some r, nas)
  unmarshal_body fuel id spare body tail nas r one short looped parsed =
      let hi = length body / 256 % 256 in
      let lo = length body % 256 in
      let n : uint16 hi lo ≡ length body = omega arith in
      let l : length (body ++ tail) ≡ length body + length tail = length-append body tail in
      let step : (2 + length body) % 2 ^ 16 ≡ suc (suc (length body)) = omega arith in
      unmarshal_fits aper fuel id spare hi lo (body ++ tail) (omega arith)
      ∙ rw n (
          rw
            (parse_an_parameters_fits aper fuel (length body) (hi ∷ lo ∷ (body ++ tail))
              (omega arith))
            (rw (take-append_length body tail)
              (rw looped (rw step (rw (drop-append_length body tail) (rw parsed (ground arith)))))))

-- Message identifier and spare, length and AN-parameters, length and NAS PDU.
abbrev pub packet : {G P : Type 0} → ℕ → ℕ → List (Parameter G P) → Bytes → Bytes
packet id spare ps nas =
    id
    ∷ spare
    ∷ (put_uint16 (length (encode_all ps)) ++ (encode_all ps ++ (put_uint16 (length nas) ++ nas)))

nonempty : {G P : Type 0} (ps : List (Parameter G P)) → 1 ≤ length ps → 1 ≤ length (encode_all ps)
unfolding encode_all
nonempty [] h = absurd (omega arith)
nonempty (p ∷ ps) h = omega arith

-- A packet that lays out sound AN-parameters (at least one, less than 65534 bytes together, each value
-- below 254 bytes and of the length that its type asks for, S-NSSAIs with an SST and at most an SD, no
-- mapped ones) and a NAS PDU of 1 to 65535 bytes is read back with enough fuel: the parameters as the
-- decoder gives them, of each type the last one, unknown types skipped, and the NAS PDU byte for byte.
pub unmarshal-packet :
    {G P : Type 0} (aper : Aper G P) (fuel id spare : ℕ) (ps : List (Parameter G P)) (nas : Bytes)
    → All (IsSound aper) ps
    → 1 ≤ length ps
    → length (encode_all ps) < 65534
    → 1 ≤ length nas
    → length nas < 65536
    → length (encode_all ps) < fuel
    → unmarshal_eap5g_data aper fuel (packet id spare ps nas)
      ≡ ok (some (foldl apply no_parameters ps), nas)
unmarshal-packet aper fuel id spare ps nas s one short h k f =
    unmarshal_body aper fuel id spare (encode_all ps) (put_uint16 (length nas) ++ nas) nas _
      (nonempty ps one) short (parameter_loop-All aper fuel ps no_parameters s f)
      (parse_nas_pdu_of aper nas h k)
