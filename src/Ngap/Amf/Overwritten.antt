-- ===== src/Ngap/Amf/Overwritten.antt =====
-- Two NAS messages for a UE before its TCP connection is complete.
use n3iwf.Prelude.{
  ap, ℕ, ◌≡◌, ◌≢◌, refl, ◌∙◌, true, false, List, [], ◌∷◌, none, some, inl, inr, arith, Bool-cases,
  ◌==◌, ==_iff,
}
use n3iwf.Prelude.Bytes.{Bytes}
use n3iwf.Prelude.Map.{lookup-insert_self}
use n3iwf.Prelude.Outcome.{ok, bind-some}
use n3iwf.Nas.{encap_nas_msg_to_envelope}
use n3iwf.Context.{RanUe, N3iwf, assign, ike_spi_load}
use n3iwf.Events.{nas_tcp_conn_established_complete_evt}
use n3iwf.Ngap.Types.{Env, to_tcp}
use n3iwf.Ngap.Handlers.{handle_event}
use n3iwf.Ngap.Handlers.Release.{Stands}
use n3iwf.Ngap.Handlers.Cached.{cached_sent}
use n3iwf.Ngap.Message.{Ie, no_ies, downlink_ie, read_ies}
use n3iwf.Ngap.Amf.{
  match_amf_id, enveloped, passed, pass_nas, matched, downlink, handle_downlink_nas_transport,
}

-- A message with the NAS message `nas`, for the RAN UE `ran` of which the AMF has the ID `i`.
pub record IsFor (ran i : ℕ) (nas : Bytes) (ies : List Ie) : Type 0 where
  pub ran_ue : (read_ies downlink_ie no_ies ies).ran_id ≡ some ran
  pub amf_ue : (read_ies downlink_ie no_ies ies).amf_id ≡ some i
  pub message : (read_ies downlink_ie no_ies ies).nas ≡ some nas

known_amf_id :
    (i : ℕ) (ue : RanUe)
    → ue.amf_ue_ngap_id ≡ i
    → i ≢ 1099511627775
    → match_amf_id (some i) ue ≡ some ue
unfolding match_amf_id
known_amf_id i ue e n = elim (Bool-cases (ue.amf_ue_ngap_id == 1099511627775)) [
  | inl b ↦ absurd (n (ap (λ j. j) (ground (arith, e, ==_iff ue.amf_ue_ngap_id 1099511627775))))
  | inr b ↦ ground (arith, e, ==_iff ue.amf_ue_ngap_id i)
]

module _ {S G : Type 0} where
  -- The UE with the message in its cache.
  abbrev cached : ℕ → Bytes → RanUe → N3iwf S G → N3iwf S G
  cached p nas ue w =
      assign p (record ue { cached_nas = some (encap_nas_msg_to_envelope nas) }) (assign p ue w)

  downlink_cached :
      (a ran i p spi : ℕ) (nas : Bytes) (ies : List Ie) (ue : RanUe) (w : N3iwf S G)
      → IsFor ran i nas ies
      → ue.amf_ue_ngap_id ≡ i
      → i ≢ 1099511627775
      → Stands ran p ue w
      → ike_spi_load ue.ran_ue_ngap_id w ≡ some spi
      → ue.is_nas_tcp_established ≡ true
      → ue.is_nas_tcp_complete ≡ false
      → handle_downlink_nas_transport (some a) (some (some (some ies))) w
        ≡ ok (cached p nas ue w, [])
  unfolding handle_downlink_nas_transport downlink matched pass_nas passed enveloped assign
  downlink_cached a ran i p spi nas ies ue w for same n stands e b d =
      let w' = assign p ue w in
      let done : passed nas p ue w' spi ue.is_nas_tcp_established ≡ ok (cached p nas ue w, []) =
        ap (passed nas p ue w' spi) b ∙ ap (enveloped nas p ue w') d in
      let passes : pass_nas (some nas) p ue w' ≡ ok (cached p nas ue w, []) =
        rw (e, pass_nas) done in
      bind-some _ for.ran_ue
      ∙ rw stands.in_pool (
          bind-some _ stands.in_heap
          ∙ (ap (λ o. matched (read_ies downlink_ie no_ies ies).nas p (match_amf_id o ue) w)
                for.amf_ue
              ∙ (ap (λ o. matched (read_ies downlink_ie no_ies ies).nas p o w)
                    (known_amf_id i ue same n)
                  ∙ (ap (λ o. pass_nas o p ue w') for.message ∙ passes))))

module _ {S G : Type 0} (env : Env S G) where
  -- A UE in the pool with an SPI, the AMF UE NGAP ID `i`, and a TCP connection that is established but
  -- not complete. Two downlink NAS transports for it, before the event that completes the connection:
  -- nothing is sent on either, and the event sends the second message alone, so the first is lost.
  pub downlink_overwritten :
      (a ran i p spi connection : ℕ) (first second : Bytes) (ies later : List Ie) (ue : RanUe)
      (w : N3iwf S G)
      → IsFor ran i first ies
      → IsFor ran i second later
      → ue.amf_ue_ngap_id ≡ i
      → i ≢ 1099511627775
      → Stands ran p ue w
      → ike_spi_load ue.ran_ue_ngap_id w ≡ some spi
      → ue.is_nas_tcp_established ≡ true
      → ue.is_nas_tcp_complete ≡ false
      → ue.tcp_connection ≡ some connection
      → (v w1 w2 : N3iwf S G) × (handle_downlink_nas_transport (some a) (some (some (some ies))) w
          ≡ ok (w1, []))
        × (handle_downlink_nas_transport (some a) (some (some (some later))) w1 ≡ ok (w2, []))
        × (handle_event env w2 (nas_tcp_conn_established_complete_evt ran)
            ≡ ok (v, to_tcp connection (encap_nas_msg_to_envelope second) ∷ []))
  unfolding assign
  downlink_overwritten a ran i p spi connection first second ies later ue w for for' same n stands e
        b d conn =
      let ue1 = record ue { cached_nas = some (encap_nas_msg_to_envelope first) } in
      let ue2 = record ue { cached_nas = some (encap_nas_msg_to_envelope second) } in
      let w1 = cached p first ue w in
      let w2 = cached p second ue1 w1 in
      (
        assign p (record ue2 { is_nas_tcp_complete = true; cached_nas = none }) w2,
        w1,
        w2,
        downlink_cached a ran i p spi first ies ue w for same n stands e b d,
        downlink_cached a ran i p spi second later ue1 w1 for' same n
            (record {
              in_pool = stands.in_pool;
              in_heap = lookup-insert_self p ue1 (assign p ue w).ran_ues;
            })
            e b d,
        cached_sent env ran p connection (encap_nas_msg_to_envelope second) ue2 w2
            (record {
              in_pool = stands.in_pool;
              in_heap = lookup-insert_self p ue2 (assign p ue1 w1).ran_ues;
            })
            conn refl,
      )
