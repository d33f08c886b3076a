-- ===== src/Eap5g/Tests.antt =====
-- Concrete EAP-5G packets, and a decoder that yields what it is given.
use mathlib.Core.List.{foldl}
use n3iwf.Prelude.{◌≡◌, ◌≢◌, refl, List, [], ◌∷◌, some, none, arith}
use n3iwf.Prelude.Bytes.{Bytes}
use n3iwf.Prelude.Outcome.{ok, panic, out_of_fuel}
use n3iwf.Eap5g.{Aper, Snssai, no_parameters, unmarshal_eap5g_data}
use n3iwf.Eap5g.Nssai.{Ends, encode_nssai}
use n3iwf.Eap5g.Ends.{unmarshal-ne-panic, unmarshal_terminates}
use n3iwf.Eap5g.Hang.{unmarshal_hangs}
use n3iwf.Eap5g.RoundTrip.{
  Parameter, plmn, cause, other, nssai, apply, packet, encode_all, unmarshal-packet,
}

abbrev echo : Aper Bytes Bytes
echo = record { decode_guami = λ v. some v; decode_plmn = λ v. some v }

abbrev slices : List Snssai
slices = record { sst = 1; sd = some (1, 2, 3) } ∷ record { sst = 2; sd = none } ∷ []

abbrev parameters : List (Parameter Bytes Bytes)
parameters =
    plmn (2 ∷ 248 ∷ 57 ∷ []) (0 ∷ 2 ∷ 248 ∷ 57 ∷ []) ∷ nssai slices ∷ cause 3 ∷ other 9 [] ∷ []

abbrev short_packet : Bytes
short_packet = 2 ∷ 0 ∷ 0 ∷ 3 ∷ 4 ∷ 1 ∷ 3 ∷ 0 ∷ 1 ∷ 126 ∷ []

unmarshal-ne-panic_example : unmarshal_eap5g_data echo 20 short_packet ≢ panic
unmarshal-ne-panic_example = unmarshal-ne-panic echo 20 short_packet (
  omega arith,
  (
    omega arith,
    (
      omega arith,
      (
        omega arith,
        (
          omega arith,
          (omega arith, (omega arith, (omega arith, (omega arith, (omega arith, tt))))),
        ),
      ),
    ),
  ),
)

unmarshal_terminates_example : Ends ⊥ (unmarshal_eap5g_data echo 20 short_packet)
unmarshal_terminates_example =
    unmarshal_terminates echo 20 short_packet
      (
        (omega arith, λ e. omega arith),
        (
          (omega arith, λ e. omega arith),
          (
            (omega arith, λ e. omega arith),
            (
              (omega arith, λ e. omega arith),
              (
                (omega arith, λ e. omega arith),
                (
                  (omega arith, λ e. omega arith),
                  (
                    (omega arith, λ e. omega arith),
                    (
                      (omega arith, λ e. omega arith),
                      ((omega arith, λ e. omega arith), ((omega arith, λ e. omega arith), tt)),
                    ),
                  ),
                ),
              ),
            ),
          ),
        ),
      )
      (omega arith)

unmarshal_hangs_example :
    unmarshal_eap5g_data echo 1000 (2 ∷ 0 ∷ 0 ∷ 2 ∷ 9 ∷ 254 ∷ []) ≡ out_of_fuel
unmarshal_hangs_example =
    unmarshal_hangs echo 1000 2 0 0 2 9 [] (omega arith) (omega arith) (omega arith)

unmarshal-packet_example :
    unmarshal_eap5g_data echo 50 (packet 2 0 parameters (126 ∷ 0 ∷ []))
    ≡ ok (some (foldl apply no_parameters parameters), 126 ∷ 0 ∷ [])
unfolding encode_nssai encode_all
unmarshal-packet_example =
    unmarshal-packet echo 50 2 0 parameters (126 ∷ 0 ∷ [])
      ((refl, refl), ((omega arith, omega arith), (tt, ((omega arith, omega arith), tt))))
      (omega arith) (omega arith) (omega arith) (omega arith) (omega arith)
