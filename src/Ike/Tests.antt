-- ===== src/Ike/Tests.antt =====
-- Concrete proposals: AES-CBC with 256 bits, HMAC-SHA1-96, DH group 14, and ESN.
use n3iwf.Prelude.{ℕ, ◌≡◌, ◌≢◌, ◌↔◌, true, false, List, [], ◌∷◌}
use n3iwf.Prelude.{
  Option, none, some, arith, ap, sym, some-injective, refl, some, ℕ, List, [], ◌∷◌, ◌≡◌,
}
use n3iwf.Prelude.Map.{lookup}
use n3iwf.Prelude.Outcome.{ok}
use n3iwf.Sa.{IkeUe}
use n3iwf.Context.Children.{Host}
use n3iwf.Context.Tests.{
  inbound_state, host, netlink, netlink_laws, child, ike_ue, child-IsInstalled,
}
use n3iwf.Prelude.Bytes.{Bytes}
use n3iwf.Prelude.Outcome.{After}
use n3iwf.Context.Tests.{gateway}
use n3iwf.Ike.Server.{Header, IkePackage, serve}
use n3iwf.Ike.Server.Served.{IkeLaws, Allowed, serve-Allowed}
use n3iwf.Ike.Delete.Outbound.{entry, empty}
use n3iwf.Ike.Delete.Listed.{Listed}
use n3iwf.Ike.Request.{DeletePayload, handle_ike_delete_evt, handle_send_child_sa_delete_request}
use n3iwf.Ike.Request.Removed.{delete_request, handle_ike_delete_evt-Cleared}
use n3iwf.Ike.Request.Purged.{Purged, handle_send_child_sa_delete_request-Purged}
use n3iwf.Context.Tests.{ike_sa}
use n3iwf.Sa.{ChildSa}
use n3iwf.Prelude.{All, length, ◌%◌, ◌^◌}
use n3iwf.Ike.Proposal.{Transform, Proposal, Decoders, select_proposal, select_esp}
use n3iwf.Ike.Nat.{
  Address, other_type, generate_nat_detect_hash, handle_nat_detect, build_nat_detect_notif_payload,
}
use n3iwf.Ike.Nat.Detect.{handle_nat_detect-build}
use n3iwf.Ike.Proposal.Select.{Selected, select_proposal-Selected}
use n3iwf.Ike.Proposal.Taken.{EspSelected, select_esp-EspSelected}

abbrev plain : ℕ → Transform
plain id = record { id = id; attribute_present = false; attribute_value = 0 }

abbrev aes_256 : Transform
aes_256 = record { id = 12; attribute_present = true; attribute_value = 256 }

abbrev ike_proposal : Proposal
ike_proposal = record {
  number = 1;
  protocol_id = 1;
  spi = [];
  encryption = aes_256 ∷ [];
  pseudorandom = plain 2 ∷ [];
  integrity = plain 2 ∷ [];
  diffie_hellman = plain 2 ∷ plain 14 ∷ [];
  esn = [];
}

abbrev esp_proposals : List Proposal
esp_proposals =
    record ike_proposal { esn = plain 0 ∷ [] }
    ∷ record ike_proposal {
      spi = 0 ∷ 0 ∷ 0 ∷ 9 ∷ [];
      pseudorandom = [];
      diffie_hellman = [];
      esn = plain 0 ∷ [];
    }
    ∷ []

abbrev all_known : Decoders
all_known = record { dh = λ t. true; encr = λ t. true; integ = λ t. true; prf = λ t. true }

select_proposal-Selected_example :
    Selected all_known (ike_proposal ∷ []) (select_proposal all_known (ike_proposal ∷ []))
select_proposal-Selected_example = select_proposal-Selected all_known (ike_proposal ∷ [])

select_esp-EspSelected_example : EspSelected esp_proposals (select_esp esp_proposals)
select_esp-EspSelected_example = select_esp-EspSelected esp_proposals

abbrev ue_address : Address
ue_address = record { a = 10; b = 0; c = 0; d = 7; port = 500 }

abbrev translated : Address
translated = record { a = 192; b = 0; c = 2; d = 1; port = 40000 }

abbrev gateway_address : Address
gateway_address = record { a = 192; b = 0; c = 2; d = 99; port = 500 }

handle_nat_detect-build_example :
    let flags =
      handle_nat_detect
        (λ m. m)
        1
        2
        (build_nat_detect_notif_payload
          (λ m. m)
          1
          2
          (other_type [] ∷ [])
          gateway_address
          ue_address)
        translated
        gateway_address in
    let hash = generate_nat_detect_hash (λ m. m) 1 2 in
    ((flags.0 ≡ true) ↔ (hash ue_address ≢ hash translated))
    × ((flags.1 ≡ true) ↔ (hash gateway_address ≢ hash gateway_address))
handle_nat_detect-build_example =
    handle_nat_detect-build (λ m. m) 1 2 ue_address gateway_address translated gateway_address
      (other_type [] ∷ []) (tt, tt)

abbrev ike_payload : DeletePayload
ike_payload = record { protocol = 1; spi_size = 0; num_of_spi = 0; spis = [] }

handle_ike_delete_evt-Cleared_example :
    (v : Host ℕ ℕ ℕ) × (after : IkeUe) × (handle_ike_delete_evt netlink (λ ip s. some s) 1 900 host
      ≡ ok (v, delete_request 5 ike_sa 3 ike_payload ∷ []))
    × (lookup 6 v.context.ike_ues ≡ some after)
    × All {A = ℕ × ChildSa}
        (λ x. lookup x.1.inbound_spi after.child_security_association ≡ none)
        ((40, child) ∷ [])
    × (lookup 900 v.context.ikesa ≡ none)
    × (lookup 12 v.context.allocated_ue_ip_address ≡ none)
    × (lookup 900 v.context.ike_ue_pool ≡ none)
    × (v.context.child_sa ≡ 40 ∷ [])
unfolding lookup
handle_ike_delete_evt-Cleared_example =
    handle_ike_delete_evt-Cleared netlink netlink_laws (λ ip s. some s) 1 6 5 12 3 ike_ue ike_sa 1
      host refl refl refl refl refl refl refl (child-IsInstalled, tt)

abbrev esp_payload : List ℕ → DeletePayload
esp_payload spis = record {
  protocol = 3;
  spi_size = 4;
  num_of_spi = length spis % 2 ^ 16;
  spis = spis;
}

-- Session 9 has no child SA.
handle_send_child_sa_delete_request-Purged_example :
    (v : Host ℕ ℕ ℕ) × (after : IkeUe) × (spis : List ℕ) × (handle_send_child_sa_delete_request
        netlink 3 900
        (9 ∷ 1 ∷ [])
        host
      ≡ ok (v, delete_request 5 ike_sa 3 (esp_payload spis) ∷ []))
    × (lookup 6 v.context.ike_ues ≡ some after)
    × Purged ((40, child) ∷ []) (9 ∷ 1 ∷ []) spis after.child_security_association
unfolding lookup
handle_send_child_sa_delete_request-Purged_example =
    handle_send_child_sa_delete_request-Purged netlink netlink_laws 3 6 5 3 900 (9 ∷ 1 ∷ []) ike_ue
      ike_sa host refl refl refl refl refl (entry refl empty)
      ((child-IsInstalled, (1, refl), (inbound_state, refl, omega arith)), tt)

-- A package whose headers are read off the bytes: both SPIs, the exchange type, the message ID.
abbrev read_header : Bytes → Option Header
read_header (i ∷ r ∷ type ∷ id ∷ rest) = some (record {
  initiator_spi = i;
  responder_spi = r;
  major_version = 2;
  exchange_type = type;
  message_id = id;
  is_response = false;
})
read_header short = none

abbrev package_ike : IkePackage Bytes
package_ike = record {
  parse_header = read_header;
  decode_decrypt = λ msg h sa. some (record { header = h; payloads = msg });
  ike_sa_init = 34;
  ike_auth = 35;
  create_child_sa = 36;
  informational = 37;
  ike_header_len = 28;
}

package_ike_laws : IkeLaws package_ike
package_ike_laws = record { header = λ msg h sa m e. ap (λ x. x.header) (some-injective (sym e)) }

-- An informational message of the IKE SA of the UE.
serve-Allowed_example :
    After
      (λ x. Allowed package_ike gateway (800 ∷ 900 ∷ 37 ∷ 0 ∷ []) x.1)
      (serve package_ike gateway (800 ∷ 900 ∷ 37 ∷ 0 ∷ []))
serve-Allowed_example = serve-Allowed package_ike gateway package_ike_laws (800 ∷ 900 ∷ 37 ∷ 0 ∷ [])
