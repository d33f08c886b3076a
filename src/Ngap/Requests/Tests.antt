-- ===== src/Ngap/Requests/Tests.antt =====
-- Requests for the UE of the tests of Context. It has session 1; session 2 is new.
use n3iwf.Prelude.{ℕ, ◌≡◌, refl, true, [], ◌∷◌, some}
use n3iwf.Prelude.Map.{lookup}
use n3iwf.Prelude.Outcome.{ok, panic}
use n3iwf.Context.{RanUe, N3iwf}
use n3iwf.Context.Tests.{ue, gateway, counter_laws, gateway-TeidsInUse}
use n3iwf.Ngap.Types.{Env}
use n3iwf.Ngap.Tests.{environment, here}
use n3iwf.Ngap.Message.{SetupItem}
use n3iwf.Ngap.Session.{read_transfer, setup_items}
use n3iwf.Ngap.Session.Taken.{complete}
use n3iwf.Ngap.Session.Settled.{Finished, setup_items-Finished}
use n3iwf.Ngap.Requests.{handle_pdu_session_resource_setup_request}
use n3iwf.Ngap.Requests.Undecodable.{setup_request, undecodable-panic}

abbrev item : ℕ → SetupItem
item i = record { session_id = i; session_nas = some (46 ∷ []); item_snssai = 1; transfer = [] }

setup_items-Finished_example :
    (r : RanUe × N3iwf ℕ ℕ) × (setup_items environment true 7 (item 1 ∷ item 2 ∷ []) (ue, gateway)
      ≡ ok r)
    × Finished environment counter_laws true 7 (item 1 ∷ item 2 ∷ []) ue gateway r.0 r.1
unfolding read_transfer
setup_items-Finished_example =
    setup_items-Finished environment counter_laws true 7 (item 1 ∷ item 2 ∷ []) ue gateway
      (
        complete ((5, 0) ∷ []) (10 ∷ 0 ∷ 0 ∷ 2 ∷ []) [] 0 0 0 23 refl refl,
        (complete ((5, 0) ∷ []) (10 ∷ 0 ∷ 0 ∷ 2 ∷ []) [] 0 0 0 23 refl refl, tt),
      )
      gateway-TeidsInUse

-- The decoder fails, and leaves an empty transfer.
abbrev failing : Env ℕ ℕ
failing = record environment { decode_transfer = λ b. [] }

undecodable-panic_example :
    handle_pdu_session_resource_setup_request failing
      (some 2)
      (some (some (some (setup_request 1099511627775 4 (item 2 ∷ [])))))
      gateway
    ≡ panic
unfolding lookup
undecodable-panic_example = undecodable-panic failing 2 7 4 ue gateway (item 2) [] here refl refl
