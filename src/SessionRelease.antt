-- ===== src/SessionRelease.antt =====
-- The release of PDU sessions by the AMF, over both servers: HandlePDUSessionResourceReleaseCommand of
-- internal/ngap/handler.go, and then HandleSendChildSADeleteRequest of internal/ike/handler.go for the
-- event that it sends.
mod Tests
use n3iwf.Prelude.{All, ap, ℕ, ◌%◌, ◌^◌, ◌≡◌, refl, List, [], ◌∷◌, some, length}
use n3iwf.Prelude.Map.{lookup, lookup-insert_self}
use n3iwf.Prelude.Outcome.{ok}
use n3iwf.Sa.{IkeUe, IkeSa}
use n3iwf.Context.{RanUe, N3iwf, assign, ike_spi_load}
use n3iwf.Context.Children.{Kernel, Host}
use n3iwf.Context.Children.Uninstalled.{NeverRefuses}
use n3iwf.Events.{send_child_sa_delete_request_evt}
use n3iwf.Ike.Delete.Outbound.{IsKeyed}
use n3iwf.Ike.Request.{handle_send_child_sa_delete_request}
use n3iwf.Ike.Request.Loops.{IsDeletable}
use n3iwf.Ike.Request.Purged.{Purged, handle_send_child_sa_delete_request-Purged}
use n3iwf.Ike.Request.Removed.{delete_request}
use n3iwf.Ngap.Message.{Ie, no_ies, resource_release_ie, read_ies}
use n3iwf.Ngap.Types.{to_ike}
use n3iwf.Ngap.Handlers.Release.{Stands}
use n3iwf.Ngap.Amf.{handle_pdu_session_resource_release_command}
use n3iwf.Ngap.Amf.Released.{Releasing, release_command-Releasing}

module _ {S G K : Type 0} (netlink : Kernel K) (laws : NeverRefuses netlink) where
  -- A PDU session resource release command with all its IEs comes for a UE in the pool, with its AMF UE
  -- NGAP ID. Its SPI leads to an IKE UE with a connection, whose child SAs can all be deleted and stand
  -- under their inbound SPIs, and netlink refuses nothing. The NGAP server takes the listed sessions,
  -- and no others, from the RAN UE, and sends one event. When the IKE server has handled it, the child
  -- SAs whose first session is listed are out of the map of the IKE UE, and no others, and one request
  -- with their SPIs has gone to the UE.
  pub release_command-Purged :
      (type_esp a ran amf p spi u b connection : ℕ) (ids : List ℕ) (ies : List Ie) (ue : RanUe)
      (ike_ue : IkeUe) (sa : IkeSa) (h : Host S G K)
      → let s = read_ies resource_release_ie no_ies ies in
        s.missing ≡ []
        → s.ran_id ≡ some ran
        → s.amf_id ≡ some amf
        → s.to_release ≡ some ids
        → Stands ran p ue h.context
        → ue.amf_ue_ngap_id ≡ amf
        → ike_spi_load ran h.context ≡ some spi
        → lookup spi h.context.ike_ue_pool ≡ some u
        → lookup u h.context.ike_ues ≡ some ike_ue
        → ike_ue.ike_security_association ≡ some b
        → lookup b h.context.ike_sas ≡ some sa
        → ike_ue.ike_connection ≡ some connection
        → IsKeyed ike_ue.child_security_association
        → All IsDeletable ike_ue.child_security_association
        → (w : N3iwf S G) × (after : RanUe) × (v : Host S G K) × (ike_after : IkeUe) × (spis : List
            ℕ)
          × (handle_pdu_session_resource_release_command (some a) (some (some (some ies))) h.context
              ≡ ok (w, to_ike (send_child_sa_delete_request_evt spi ids) ∷ []))
          × (lookup p w.ran_ues ≡ some after)
          × Releasing ids ue after
          × (handle_send_child_sa_delete_request netlink type_esp spi ids (record h { context = w })
              ≡ ok (
                v,
                delete_request b sa connection (record {
                  protocol = type_esp;
                  spi_size = 4;
                  num_of_spi = length spis % 2 ^ 16;
                  spis = spis;
                })
                    ∷ [],
              ))
          × (lookup u v.context.ike_ues ≡ some ike_after)
          × Purged ike_ue.child_security_association ids spis ike_after.child_security_association
  unfolding assign
  release_command-Purged type_esp a ran amf p spi u b connection ids ies ue ike_ue sa h missing
        ran_id amf_id list stands same e pooled object assoc sa_object connected keyed deletable =
      let w = h.context in
      let (after, r, x, teids) =
        release_command-Releasing a ran amf p spi ids ies ue w missing ran_id amf_id list stands
          same e in
      let (v, ike_after, spis, q, o, l) =
        handle_send_child_sa_delete_request-Purged netlink laws type_esp u b connection spi ids
          ike_ue sa (record h { context = assign p after w }) pooled object assoc sa_object
          connected keyed deletable in
      (
        assign p after w,
        after,
        v,
        ike_after,
        spis,
        r,
        lookup-insert_self p after w.ran_ues,
        x,
        q,
        o,
        l,
      )
