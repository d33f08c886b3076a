-- ===== src/Ngap/Amf/Routed.antt =====
-- Where the NAS message of a downlink NAS transport goes.
use n3iwf.Prelude.{ap, ℕ, ◌≡◌, refl, ◌∙◌, true, false, List, [], ◌∷◌, some, inl, inr, Bool-cases}
use n3iwf.Prelude.Bytes.{Bytes}
use n3iwf.Prelude.Map.{lookup-insert_self}
use n3iwf.Prelude.Outcome.{ok, bind-some}
use n3iwf.Nas.{encap_nas_msg_to_envelope}
use n3iwf.Context.{RanUe, N3iwf, assign, ike_spi_load}
use n3iwf.Events.{send_eap_nas_msg_evt, nas_tcp_conn_established_complete_evt}
use n3iwf.Ngap.Types.{Env, Sent, to_ike, to_tcp}
use n3iwf.Ngap.Handlers.{handle_event}
use n3iwf.Ngap.Handlers.Release.{Stands}
use n3iwf.Ngap.Handlers.Cached.{cached_sent}
use n3iwf.Ngap.Message.{Ie, no_ies, downlink_ie, read_ies}
use n3iwf.Ngap.Amf.{
  match_amf_id, enveloped, passed, pass_nas, matched, downlink, handle_downlink_nas_transport,
}

module _ {S G : Type 0} (env : Env S G) where
  -- The state after the message, and what was sent.
  pub data Routed (nas : Bytes) (id spi connection : ℕ) (ue : RanUe)
      : N3iwf S G × List Sent → Type 0 where
    -- Before there is a TCP connection, the message goes to the UE over EAP.
    over_eap :
        {w : N3iwf S G}
        → ue.is_nas_tcp_established ≡ false
        → Routed nas id spi connection ue (w, to_ike (send_eap_nas_msg_evt spi nas) ∷ [])
    -- While the connection is not complete, it waits, and goes out in its envelope if the event that
    -- completes the connection comes next.
    waits :
        {w v : N3iwf S G}
        → ue.is_nas_tcp_established ≡ true
        → ue.is_nas_tcp_complete ≡ false
        → handle_event env w (nas_tcp_conn_established_complete_evt id)
          ≡ ok (v, to_tcp connection (encap_nas_msg_to_envelope nas) ∷ [])
        → Routed nas id spi connection ue (w, [])
    -- After that, it goes out at once.
    over_tcp :
        {w : N3iwf S G}
        → ue.is_nas_tcp_established ≡ true
        → ue.is_nas_tcp_complete ≡ true
        → Routed nas id spi connection ue
            (w, to_tcp connection (encap_nas_msg_to_envelope nas) ∷ [])

  passed-Routed :
      (nas : Bytes) (id p spi connection : ℕ) (ue : RanUe) (w : N3iwf S G)
      → Stands id p ue w
      → (ue.is_nas_tcp_established ≡ true → ue.tcp_connection ≡ some connection)
      → (r : N3iwf S G × List Sent) × (passed nas p ue w spi ue.is_nas_tcp_established ≡ ok r)
        × Routed nas id spi connection ue r
  unfolding passed enveloped assign
  passed-Routed nas id p spi connection ue w stands conn =
      elim (Bool-cases ue.is_nas_tcp_established) [
        | inr b ↦ (_, ap (passed nas p ue w spi) b, over_eap b)
        | inl b ↦ elim (Bool-cases ue.is_nas_tcp_complete) [
          | inl d ↦ (
            _,
            ap (passed nas p ue w spi) b ∙ (ap (enveloped nas p ue w) d ∙ bind-some _ (conn b)),
            over_tcp b d,
          )
          | inr d ↦
              let waiting = record ue { cached_nas = some (encap_nas_msg_to_envelope nas) } in
              (
                (assign p waiting w, []),
                ap (passed nas p ue w spi) b ∙ ap (enveloped nas p ue w) d,
                waits b d (
                    cached_sent env id p connection (encap_nas_msg_to_envelope nas) waiting
                      (assign p waiting w)
                      (record {
                        in_pool = stands.in_pool;
                        in_heap = lookup-insert_self p waiting w.ran_ues;
                      })
                      (conn b) refl),
              )
        ]
      ]

  -- A downlink NAS transport with a NAS message for a UE in the pool, which has an SPI and, once it is
  -- established, a TCP connection, and with an AMF UE NGAP ID that is the UE's or its first: the
  -- message goes to one place. Before the connection is established it goes to the IKE server, for EAP.
  -- While the connection is established but not complete it is put in the cache, and if the event that
  -- completes the connection is handled next, this event sends it in its envelope. After that it goes
  -- out over TCP at once.
  pub downlink-Routed :
      (a ran p spi connection : ℕ) (nas : Bytes) (ies : List Ie) (ue after : RanUe) (w : N3iwf S G)
      → let s = read_ies downlink_ie no_ies ies in
        s.ran_id ≡ some ran
        → s.nas ≡ some nas
        → match_amf_id s.amf_id ue ≡ some after
        → Stands ran p ue w
        → ike_spi_load after.ran_ue_ngap_id w ≡ some spi
        → (after.is_nas_tcp_established ≡ true → after.tcp_connection ≡ some connection)
        → (r : N3iwf S G × List Sent) × (handle_downlink_nas_transport
              (some a)
              (some (some (some ies)))
              w
            ≡ ok r)
          × Routed nas ran spi connection after r
  unfolding handle_downlink_nas_transport downlink matched pass_nas assign
  downlink-Routed a ran p spi connection nas ies ue after w ran_id has_nas same stands e conn =
      let s = read_ies downlink_ie no_ies ies in
      let w' = assign p after w in
      let (r, done, x) =
        passed-Routed nas ran p spi connection after w'
          (record { in_pool = stands.in_pool; in_heap = lookup-insert_self p after w.ran_ues })
          conn in
      let passes : pass_nas (some nas) p after w' ≡ ok r = rw (e, pass_nas) done in
      (
        r,
        bind-some _ ran_id
            ∙ rw stands.in_pool (
                bind-some _ stands.in_heap
                ∙ (ap (λ o. matched s.nas p o w) same
                    ∙ (ap (λ o. pass_nas o p after w') has_nas ∙ passes))),
        x,
      )
