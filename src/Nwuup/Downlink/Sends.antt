-- ===== src/Nwuup/Downlink/Sends.antt =====
-- A T-PDU reaches the UE.
use n3iwf.Prelude.{
  get_elem?, none, ap, sym, some-injective, ◌∙◌, if◌then◌else◌, All, ℕ, ◌/◌, ◌%◌, ◌≡◌, refl, inl,
  inr, true, [], ◌∷◌, some, ◌==◌, arith, Bool-cases,
}
use mathlib.Core.Path.{subst}
use n3iwf.Prelude.Map.{Map, lookup}
use n3iwf.Prelude.Outcome.{ok, After, bind-ok, bind-some}
use n3iwf.Sa.{ChildSa, Link}
use n3iwf.Context.{GtpConnectionInfo, PduSession, RanUe, N3iwf}
use n3iwf.Gtp.{Tpdu, QosTpduPacket, fresh, get_qos_parameters}
use n3iwf.Gtp
use n3iwf.Gtp.Qos.{last_info, with_info, IsWellFormed, unmarshal-last_info}
use n3iwf.Nwuup.{
  Sent, to_ue, on_session, matched, deliver, downlink_interface, downlink_qos, downlink_packet,
  forward_to, forward_dl, handle_qos_tpdu,
}
use n3iwf.Nwuup.Downlink.{
  Serves, Serves-info, Carried, here, there, Owner, Delivered, AllDelivered, forward_dl-Delivered,
}

-- A child SA that is set up whole: it has an interface, and it serves a session with a connection.
pub record IsWhole (ue : RanUe) (x : ℕ × ChildSa) : Type 0 where
  pub info : GtpConnectionInfo
  pub serves : Serves ue x.1 info
  pub link : Link
  pub iface : x.1.xfrm_iface ≡ some link

-- The child SA of the signalling, of which the ID is not that of a session of the UE and which needs no
-- interface, or one that is set up whole.
pub data IsComplete (ue : RanUe) (x : ℕ × ChildSa) : Type 0 where
  signalling :
      (id : ℕ)
      → get_elem? x.1.pdu_session_ids 0 ≡ some id
      → lookup id ue.pdu_session_list ≡ none
      → IsComplete ue x
  whole : IsWhole ue x → IsComplete ue x

none-session : {s : PduSession} → ¬ (none ≡ some s)
none-session e = ground arith

module _ (E : Type 0) where
  downlink_interface_signalling :
      (teid spi id : ℕ) (c : ChildSa) (cs : Map ChildSa) (ue : RanUe)
      → get_elem? c.pdu_session_ids 0 ≡ some id
      → lookup id ue.pdu_session_list ≡ none
      → downlink_interface {E = E} teid ((spi, c) ∷ cs) ue ≡ downlink_interface teid cs ue
  unfolding downlink_interface on_session
  downlink_interface_signalling teid spi id c cs ue first unknown = simp (first, unknown)

  downlink_interface_complete :
      (teid spi : ℕ) (c : ChildSa) (cs : Map ChildSa) (ue : RanUe) (x : IsWhole ue (spi, c))
      → downlink_interface {E = E} teid ((spi, c) ∷ cs) ue ≡ (
          if x.info.incoming_teid == teid
          then ok (some x.link.index)
          else downlink_interface teid cs ue)
  unfolding downlink_interface on_session matched
  downlink_interface_complete teid spi c cs ue x =
      simp (x.serves.first, x.serves.known, x.serves.conn, x.iface)

  downlink_interface-ok :
      (teid i : ℕ) (ue : RanUe) (cs : Map ChildSa)
      → Carried teid i ue cs
      → All (IsComplete ue) cs
      → (j : ℕ) × (downlink_interface {E = E} teid cs ue ≡ ok (some j))
  downlink_interface-ok teid i ue _ (here {spi} {c} {cs} h) (signalling id first unknown, xs) =
      let ids : id ≡ h.serves.id = some-injective (sym first ∙ h.serves.first) in
      absurd
        (none-session (sym unknown ∙ (ap (λ j. lookup j ue.pdu_session_list) ids ∙ h.serves.known)))
  downlink_interface-ok teid i ue _ (there {spi} {c} {cs} h) (signalling id first unknown, xs) =
      let (j, e) = downlink_interface-ok teid i ue cs h xs in
      (j, downlink_interface_signalling teid spi id c cs ue first unknown ∙ e)
  downlink_interface-ok teid i ue _ (here {spi} {c} {cs} h) (whole x, xs) =
      let same : x.info.incoming_teid ≡ teid =
        ap (λ t. t.incoming_teid) (Serves-info ue c x.info h.info x.serves h.serves) ∙ h.teid_of in
      (x.link.index, downlink_interface_complete teid spi c cs ue x ∙ ground arith)
  downlink_interface-ok teid i ue _ (there {spi} {c} {cs} h) (whole x, xs) =
      let (j, e) = downlink_interface-ok teid i ue cs h xs in
      let step = downlink_interface_complete teid spi c cs ue x in
      elim (Bool-cases (x.info.incoming_teid == teid)) [
        | inl b ↦ (x.link.index, step ∙ rw b refl)
        | inr b ↦ (j, step ∙ rw b e)
      ]

module _ {S G : Type 0} (E : Type 0) where
  -- With the lookups on the way and all the child SAs complete, a packet is sent.
  forward_dl-sends :
      (p : QosTpduPacket) (w : N3iwf S G) (i : ℕ) (o : Owner p.tpdu.teid w)
      → All (IsComplete o.ue) o.ike_ue.child_security_association
      → Carried p.tpdu.teid i o.ue o.ike_ue.child_security_association
      → (m : Sent) × (forward_dl {E = E} p w ≡ ok (m ∷ []))
  unfolding forward_dl forward_to deliver
  forward_dl-sends p w i o complete carried =
      let (j, e) =
        downlink_interface-ok E p.tpdu.teid i o.ue o.ike_ue.child_security_association carried
          complete in
      (
        to_ue (downlink_packet p) j o.ike_ue.ipsec_inner_ip_addr,
        rw (o.owns, forward_dl)
            (bind-some _ o.ran_object ∙ rw o.linked (bind-some _ o.ike_object ∙ bind-ok _ e)),
      )

module _ {S G : Type 0} where
  -- A T-PDU with well-formed extension headers, the last session container of which has the second
  -- byte `b`, and whose TEID has an owner, one of whose child SAs carries the TEID. Each of its child SAs
  -- has an interface and a session with a connection, or is for the signalling, with an ID that is not
  -- that of a session of the UE: handleQoSTPDU sends one packet, to the inner address of the owner, out of the interface of
  -- a child SA that carries the TEID, and the UE reads the payload with the QFI and the RQI of `b`.
  pub handle_qos_tpdu-Delivered :
      (sc : ℕ) (pdu : Tpdu) (b i : ℕ) (w : N3iwf S G) (o : Owner pdu.teid w)
      → All (IsWellFormed sc) pdu.extension_headers
      → pdu.has_extension_header ≡ true
      → last_info sc pdu.extension_headers ≡ some b
      → All (IsComplete o.ue) o.ike_ue.child_security_association
      → Carried pdu.teid i o.ue o.ike_ue.child_security_association
      → (m : Sent) × (handle_qos_tpdu sc pdu w ≡ ok (m ∷ []))
        × Delivered pdu.teid pdu.payload (b % 64) (b / 64 % 2 == 1) w m
  unfolding handle_qos_tpdu downlink_qos get_qos_parameters
  handle_qos_tpdu-Delivered sc pdu b i w o wf has last complete carried =
      let p = with_info (fresh pdu) (some b) in
      let read : Gtp.unmarshal sc pdu ≡ ok p =
        unmarshal-last_info sc pdu wf ∙ rw (has, last) refl in
      let (m, sends) = forward_dl-sends Gtp.Error p w i o complete carried in
      let d =
        subst (λ r. After (AllDelivered p w) r) sends
          (forward_dl-Delivered Gtp.Error p w (omega arith)) in
      (
        m,
        bind-ok _ read ∙ sends,
        subst (λ q. Delivered pdu.teid pdu.payload q (b / 64 % 2 == 1) w m) (omega arith) d.0,
      )
