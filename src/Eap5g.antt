-- ===== src/Eap5g.antt =====
-- UnmarshalEAP5GData of internal/ngap/eap5g.go, with the constants of internal/ngap/message/types.go.
-- The AN-parameters and the NAS PDU in the vendor data of an EAP-5G packet, as a UE sends it.
--
-- A byte slice is a list of numbers below 256. Indexing and slicing out of range is `panic`. Sums of
-- a uint8 or a uint16 with the constant 2 wrap, as they do in Go: `int(2+parameterLength)` converts
-- after the addition. The two loops take fuel, and a run that needs more is `out_of_fuel`. The APER
-- decoder (package aper) is the parameter `aper`: a decoded value, or none for its error.
pub mod Nssai
pub mod Value
pub mod Loop
pub mod Ends
pub mod Hang
pub mod RoundTrip
mod Tests
use n3iwf.Prelude.{
  ℕ, zero, suc, ◌+◌, ◌%◌, ◌^◌, ◌≡◌, Bool, List, [], ◌∷◌, ◌++◌, Option, none, some, ltb, leb, ◌==◌,
  length, bit_and, not, if◌then◌else◌,
}
use n3iwf.Prelude.Bytes.{Bytes, uint16}
use n3iwf.Prelude.Outcome.{
  Outcome, ok, err, panic, out_of_fuel, ◌>>=◌, ◌>>◌, guard, or_fail, index, slice_from, slice_to,
}

-- The errors of the function, by their texts.
pub data Error : Type 0 where
  no_data formatting malformed unmatched_guami guami_decoding unmatched_plmn : Error
  plmn_decoding unmatched_cause no_nas_pdu : Error

-- The SD is three bytes when it is there.
pub record Snssai : Type 0 where
  pub sst : ℕ
  pub sd : Option (ℕ × ℕ × ℕ)

pub record AnParameters (G P : Type 0) : Type 0 where
  pub guami : Option G
  pub selected_plmn : Option P
  pub requested_nssai : Option (List Snssai)
  pub establishment_cause : Option ℕ

-- aper.UnmarshalWithParams for a GUAMI and for a PLMN identity.
pub record Aper (G P : Type 0) : Type 0 where
  pub decode_guami : Bytes → Option G
  pub decode_plmn : Bytes → Option P

abbrev pub no_parameters : {G P : Type 0} → AnParameters G P
no_parameters = record {
  guami = none;
  selected_plmn = none;
  requested_nssai = none;
  establishment_cause = none;
}

-- The value of one S-NSSAI, without its length byte.
pub snssai_item : Bytes → Outcome Error Snssai
snssai_item (sst ∷ []) = ok (record { sst = sst; sd = none })
snssai_item (sst ∷ a ∷ b ∷ c ∷ []) = ok (record { sst = sst; sd = some (a, b, c) })
snssai_item _ = err formatting

-- `for len(parameterValue) >= 2`; `list` is ngapNSSAI.List.
pub nssai_loop : ℕ → Bytes → List Snssai → Outcome Error (List Snssai)
unfolding snssai_item
nssai_loop zero value list = out_of_fuel
nssai_loop (suc fuel) value list =
    if leb 2 (length value)
    then (do
      n ← index value 0
      body ← slice_from value 1
      guard (not (ltb (length body) n)) formatting
      body ← slice_to body n
      item ← snssai_item body
      rest ← slice_from value ((1 + n) % 2 ^ 8)
      nssai_loop fuel rest (list ++ item ∷ []))
    else ok list

-- The cause of the first value byte; an unknown cause is treated as mo-Data.
unfoldable pub establishment_cause : ℕ → ℕ
establishment_cause byte =
    let cause = bit_and byte 0x0f in
    if cause == 0
    then cause
    else if cause == 1
    then cause
    else if cause == 3
    then cause
    else if cause == 4
    then cause
    else if cause == 8
    then cause
    else if cause == 9
    then cause
    else 4

-- The NAS PDU behind its length.
pub parse_nas_pdu : Bytes → Outcome Error Bytes
parse_nas_pdu coded = do
  guard (not (ltb (length coded) 2)) formatting
  hi ← index coded 0
  lo ← index coded 1
  let n = uint16 hi lo
  guard (not (n == 0)) no_nas_pdu
  field ← slice_from coded 2
  guard (not (ltb (length field) n)) formatting
  slice_to field n

module _ {G P : Type 0} (aper : Aper G P) where
  pub guami_case : Bytes → AnParameters G P → Outcome Error (AnParameters G P)
  guami_case value params = do
    guard (length value == 6) unmatched_guami
    g ← or_fail (aper.decode_guami (0 ∷ value)) guami_decoding
    ok (record params { guami = some g })

  pub plmn_case : Bytes → AnParameters G P → Outcome Error (AnParameters G P)
  plmn_case value params = do
    guard (length value == 3) unmatched_plmn
    p ← or_fail (aper.decode_plmn (0 ∷ value)) plmn_decoding
    ok (record params { selected_plmn = some p })

  pub nssai_case : ℕ → Bytes → AnParameters G P → Outcome Error (AnParameters G P)
  nssai_case fuel value params = do
    list ← nssai_loop fuel value []
    ok (record params { requested_nssai = some list })

  pub cause_case : Bytes → AnParameters G P → Outcome Error (AnParameters G P)
  cause_case value params = do
    guard (length value == 1) unmatched_cause
    byte ← index value 0
    ok (record params { establishment_cause = some (establishment_cause byte) })

  -- `parameterValue` of the four known types: what follows the two header bytes, cut to the length.
  pub parameter_value : ℕ → Bytes → Outcome Error Bytes
  parameter_value n field = do
    value ← slice_from field 2
    guard (not (ltb (length value) n)) formatting
    slice_to value n

  -- `if parameterLength != 0`: an empty value only warns.
  pub with_value :
      ℕ
      → Bytes
      → AnParameters G P
      → (Bytes → Outcome Error (AnParameters G P))
      → Outcome Error (AnParameters G P)
  with_value n field params read =
      if n == 0 then ok params else (do value ← parameter_value n field; read value)

  -- `switch parameterType`; an unknown type only warns.
  pub parameter_switch : ℕ → ℕ → ℕ → Bytes → AnParameters G P → Outcome Error (AnParameters G P)
  parameter_switch fuel type n field params =
      if type == 1
      then with_value n field params (λ v. guami_case v params)
      else if type == 2
      then with_value n field params (λ v. plmn_case v params)
      else if type == 3
      then with_value n field params (λ v. nssai_case fuel v params)
      else if type == 4
      then with_value n field params (λ v. cause_case v params)
      else ok params

  -- `for len(anParameterField) >= 2`
  pub parameter_loop : ℕ → Bytes → AnParameters G P → Outcome Error (AnParameters G P)
  parameter_loop zero field params = out_of_fuel
  parameter_loop (suc fuel) field params =
      if leb 2 (length field)
      then (do
        type ← index field 0
        n ← index field 1
        guard (not (ltb (length field) ((2 + n) % 2 ^ 8))) malformed
        params' ← parameter_switch fuel type n field params
        rest ← slice_from field ((2 + n) % 2 ^ 8)
        parameter_loop fuel rest params')
      else ok params

  -- The function literal: `data` starts with the length field, which holds `n`.
  pub parse_an_parameters : ℕ → Bytes → ℕ → Outcome Error (Option (AnParameters G P))
  parse_an_parameters fuel coded n = if n == 0 then ok none else (do
    field ← slice_from coded 2
    guard (not (ltb (length field) n)) formatting
    field ← slice_to field n
    params ← parameter_loop fuel field no_parameters
    ok (some params))

  pub unmarshal_eap5g_data : ℕ → Bytes → Outcome Error (Option (AnParameters G P) × Bytes)
  unmarshal_eap5g_data fuel coded = do
    guard (not (ltb (length coded) 2)) no_data
    coded ← slice_from coded 2
    guard (not (ltb (length coded) 2)) formatting
    hi ← index coded 0
    lo ← index coded 1
    let n = uint16 hi lo
    field ← slice_from coded 2
    guard (not (ltb (length field) n)) formatting
    _ ← slice_to field n
    params ← parse_an_parameters fuel coded n
    rest ← slice_from coded ((2 + n) % 2 ^ 16)
    nas ← parse_nas_pdu rest
    ok (params, nas)
