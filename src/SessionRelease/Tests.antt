-- ===== src/SessionRelease/Tests.antt =====
-- The gateway with SPI 900 for its UE, and a release command for the sessions 1 and 2.
use n3iwf.Prelude.{ℕ, ◌%◌, ◌^◌, ◌≡◌, refl, List, [], ◌∷◌, some, length, arith}
use n3iwf.Prelude.Map.{lookup, insert}
use n3iwf.Prelude.Outcome.{ok}
use n3iwf.Sa.{IkeUe}
use n3iwf.Context.{RanUe, N3iwf, ike_spi_ngap_id_mapping}
use n3iwf.Context.Children.{Host}
use n3iwf.Context.Tests.{
  inbound_state, ue, gateway, child, ike_ue, ike_sa, netlink, netlink_laws, child-IsInstalled,
}
use n3iwf.Events.{send_child_sa_delete_request_evt}
use n3iwf.Ike.Delete.Outbound.{entry, empty}
use n3iwf.Ike.Request.{DeletePayload, handle_send_child_sa_delete_request}
use n3iwf.Ike.Request.Purged.{Purged}
use n3iwf.Ike.Request.Removed.{delete_request}
use n3iwf.Ngap.Message.{
  Ie, amf_ue_ngap_id, ran_ue_ngap_id, pdu_session_resource_to_release_list, read_ies,
}
use n3iwf.Ngap.Types.{to_ike}
use n3iwf.Ngap.Handlers.Release.{Stands}
use n3iwf.Ngap.Amf.{handle_pdu_session_resource_release_command}
use n3iwf.Ngap.Amf.Released.{Releasing}
use n3iwf.SessionRelease.{release_command-Purged}

abbrev mapped_host : Host ℕ ℕ ℕ
mapped_host = record { context = ike_spi_ngap_id_mapping 900 4 gateway; kernel = 0 }

mapped_host-Stands : Stands 4 7 ue mapped_host.context
unfolding lookup ike_spi_ngap_id_mapping
mapped_host-Stands = record { in_pool = refl; in_heap = refl }

abbrev command : List Ie
command =
    amf_ue_ngap_id (some 1099511627775)
    ∷ ran_ue_ngap_id (some 4)
    ∷ pdu_session_resource_to_release_list (some (1 ∷ 2 ∷ []))
    ∷ []

abbrev request_of : List ℕ → DeletePayload
request_of spis = record {
  protocol = 3;
  spi_size = 4;
  num_of_spi = length spis % 2 ^ 16;
  spis = spis;
}

release_command-Purged_example :
    (w : N3iwf ℕ ℕ) × (after : RanUe) × (v : Host ℕ ℕ ℕ) × (ike_after : IkeUe) × (spis : List ℕ)
    × (handle_pdu_session_resource_release_command
          (some 2)
          (some (some (some command)))
          mapped_host.context
        ≡ ok (w, to_ike (send_child_sa_delete_request_evt 900 (1 ∷ 2 ∷ [])) ∷ []))
    × (lookup 7 w.ran_ues ≡ some after)
    × Releasing (1 ∷ 2 ∷ []) ue after
    × (handle_send_child_sa_delete_request netlink 3 900
          (1 ∷ 2 ∷ [])
          (record mapped_host { context = w })
        ≡ ok (v, delete_request 5 ike_sa 3 (request_of spis) ∷ []))
    × (lookup 6 v.context.ike_ues ≡ some ike_after)
    × Purged ((40, child) ∷ []) (1 ∷ 2 ∷ []) spis ike_after.child_security_association
unfolding read_ies lookup ike_spi_ngap_id_mapping insert
release_command-Purged_example =
    release_command-Purged netlink netlink_laws 3 2 4 1099511627775 7 900 6 5 3 (1 ∷ 2 ∷ []) command
      ue ike_ue ike_sa mapped_host refl refl refl refl mapped_host-Stands refl refl refl refl refl
      refl refl (entry refl empty)
      ((child-IsInstalled, (1, refl), (inbound_state, refl, omega arith)), tt)
