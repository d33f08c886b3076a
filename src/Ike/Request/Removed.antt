-- ===== src/Ike/Request/Removed.antt =====
-- HandleIKEDeleteEvt, when netlink refuses nothing.
use n3iwf.Prelude.{All, ℕ, ◌≡◌, ◌∙◌, false, [], ◌∷◌, Option, none, some}
use n3iwf.Prelude.Map.{lookup}
use n3iwf.Prelude.Outcome.{ok, bind-some, bind-ok}
use n3iwf.Sa.{IkeUe, IkeSa}
use n3iwf.Context.Children.{Kernel, Host}
use n3iwf.Context.Children.Deleted.{remove_ike_ue-Cleared}
use n3iwf.Context.Children.Uninstalled.{NeverRefuses, IsInstalled}
use n3iwf.Ike.Request.{
  DeletePayload, Request, send_delete, send_ike_delete_request, remove_found, handle_ike_delete_evt,
}

-- What a request of an IKE SA with a delete payload is.
abbrev pub delete_request : ℕ → IkeSa → ℕ → DeletePayload → Request
delete_request a sa connection payload = record {
  connection = connection;
  keys = a;
  initiator_spi = sa.remote_spi;
  responder_spi = sa.local_spi;
  is_response = false;
  is_initiator = false;
  message_id = sa.responder_message_id;
  payload = payload;
}

pub send_delete-ok :
    {S G K : Type 0} (u a connection : ℕ) (ue : IkeUe) (sa : IkeSa) (payload : DeletePayload)
    (h : Host S G K)
    → lookup u h.context.ike_ues ≡ some ue
    → ue.ike_security_association ≡ some a
    → lookup a h.context.ike_sas ≡ some sa
    → ue.ike_connection ≡ some connection
    → send_delete u payload h ≡ ok (delete_request a sa connection payload)
unfolding send_delete
send_delete-ok u a connection ue sa payload h object assoc sa_object connected =
    bind-some _ object ∙ (bind-some _ assoc ∙ (bind-some _ sa_object ∙ bind-some _ connected))

-- An IKE UE that has a connection, an inner address and installed child SAs, when netlink refuses
-- nothing and the address is released: HandleIKEDeleteEvt sends one request to delete the IKE SA, with
-- no SPIs and the message ID for requests of the gateway, and does not wait for the response. The IKE
-- SA, the inner address and the IKE UE are out of the pools, and no child SA that the UE had is left in
-- its map. The context still has their inbound SPIs in ChildSA.
pub handle_ike_delete_evt-Cleared :
    {S G K : Type 0} (netlink : Kernel K)
    → NeverRefuses netlink
    → (release : Option ℕ → S → Option S) (type_ike u a ip connection : ℕ) (ue : IkeUe) (sa : IkeSa)
      (pool : S) (h : Host S G K)
    → lookup sa.local_spi h.context.ike_ue_pool ≡ some u
    → lookup u h.context.ike_ues ≡ some ue
    → ue.ike_security_association ≡ some a
    → lookup a h.context.ike_sas ≡ some sa
    → ue.ike_connection ≡ some connection
    → ue.ipsec_inner_ip ≡ some ip
    → release (some ip) h.context.ipsec_inner_ip_pool ≡ some pool
    → All (λ x. IsInstalled x.1) ue.child_security_association
    → (v : Host S G K) × (after : IkeUe) × (handle_ike_delete_evt netlink release type_ike
          sa.local_spi h
        ≡ ok (
          v,
          delete_request a sa connection
                (record { protocol = type_ike; spi_size = 0; num_of_spi = 0; spis = [] })
              ∷ [],
        ))
      × (lookup u v.context.ike_ues ≡ some after)
      × All
          (λ x. lookup x.1.inbound_spi after.child_security_association ≡ none)
          ue.child_security_association
      × (lookup sa.local_spi v.context.ikesa ≡ none)
      × (lookup ip v.context.allocated_ue_ip_address ≡ none)
      × (lookup sa.local_spi v.context.ike_ue_pool ≡ none)
      × (v.context.child_sa ≡ h.context.child_sa)
unfolding handle_ike_delete_evt send_ike_delete_request remove_found
handle_ike_delete_evt-Cleared netlink laws release type_ike u a ip connection ue sa pool h pooled
      object assoc sa_object connected inner released i =
    let (v, after, e, object', cs, gone, ip_gone, ue_gone, child) =
      remove_ike_ue-Cleared netlink laws release u a ip ue sa pool h object assoc sa_object inner
        released i in
    let sent =
      send_delete-ok u a connection ue sa
        (record { protocol = type_ike; spi_size = 0; num_of_spi = 0; spis = [] }) h object assoc
        sa_object connected in
    (
      v,
      after,
      rw pooled (bind-ok _ (bind-ok _ sent) ∙ bind-ok _ e),
      object',
      cs,
      gone,
      ip_gone,
      ue_gone,
      child,
    )
