-- ===== src/Nwuup/Downlink.antt =====
-- From the core to the UE: handleQoSTPDU and forwardDL.
pub mod Sends
use n3iwf.Prelude.{
  some-injective, ap, sym, ◌∙◌, if◌then◌else◌, All, ℕ, ◌/◌, ◌%◌, ◌<◌, ◌≡◌, refl, ◌⊎◌, inl, inr,
  Bool, true, false, List, [], ◌∷◌, Option, none, some, ◌==◌, ==_iff, get_elem?, arith, Bool-cases,
  Option-cases,
}
use mathlib.Core.Path.{subst}
use n3iwf.Prelude.Bytes.{Bytes}
use n3iwf.Prelude.Map.{Map, lookup}
use n3iwf.Prelude.Outcome.{
  Outcome, ok, After, weaken, bind-After, or_panic-bind, bind-ok, bind-some, ◌>>=◌, index, or_panic,
}
use n3iwf.Sa.{ChildSa, Link, IkeUe}
use n3iwf.Context.{
  GtpConnectionInfo, PduSession, RanUe, N3iwf, find_pdu_session, ike_ue_load_from_ngap_id,
}
use n3iwf.Gre.{empty, ipv4, get_qfi, get_rqi, get_payload}
use n3iwf.Gre
use n3iwf.Gre.Qos.{read_dl}
use n3iwf.Gtp.{Tpdu, QosTpduPacket, fresh, get_qos_parameters}
use n3iwf.Gtp
use n3iwf.Gtp.Qos.{last_info, with_info, IsWellFormed, unmarshal-last_info}
use n3iwf.Nwuup.{
  Sent, to_ue, on_session, matched, deliver, downlink_interface, downlink_qos, downlink_packet,
  forward_to, forward_dl, handle_qos_tpdu,
}

-- The first PDU session of the child SA is one of the UE's, with the connection `info`.
pub record Serves (ue : RanUe) (c : ChildSa) (info : GtpConnectionInfo) : Type 0 where
  pub id : ℕ
  pub first : get_elem? c.pdu_session_ids 0 ≡ some id
  pub session : PduSession
  pub known : lookup id ue.pdu_session_list ≡ some session
  pub conn : session.gtp_conn_info ≡ some info

-- A child SA on interface `i` serves the TEID.
pub record Carries (teid i : ℕ) (ue : RanUe) (c : ChildSa) : Type 0 where
  pub info : GtpConnectionInfo
  pub serves : Serves ue c info
  pub teid_of : info.incoming_teid ≡ teid
  pub link : Link
  pub iface : c.xfrm_iface ≡ some link
  pub index_of : link.index ≡ i

-- One of the child SAs does.
pub data Carried (teid i : ℕ) (ue : RanUe) : Map ChildSa → Type 0 where
  here :
      {spi : ℕ} {c : ChildSa} {cs : Map ChildSa}
      → Carries teid i ue c
      → Carried teid i ue ((spi, c) ∷ cs)
  there :
      {spi : ℕ} {c : ChildSa} {cs : Map ChildSa}
      → Carried teid i ue cs
      → Carried teid i ue ((spi, c) ∷ cs)

-- What the loop over the child SAs finds.
abbrev Found : ℕ → RanUe → Map ChildSa → Option ℕ → Type 0
Found teid ue cs none = Unit
Found teid ue cs (some i) = Carried teid i ue cs

Found-there :
    (teid : ℕ) (ue : RanUe) (spi : ℕ) (c : ChildSa) (cs : Map ChildSa) (r : Option ℕ)
    → Found teid ue cs r
    → Found teid ue ((spi, c) ∷ cs) r
Found-there teid ue spi c cs none h = tt
Found-there teid ue spi c cs (some i) h = there h

-- A child SA serves one connection.
pub Serves-info :
    (ue : RanUe) (c : ChildSa) (a b : GtpConnectionInfo) → Serves ue c a → Serves ue c b → a ≡ b
Serves-info ue c a b x y =
    let ids : x.id ≡ y.id = some-injective (sym x.first ∙ y.first) in
    let sessions : x.session ≡ y.session =
      some-injective (sym x.known ∙ ap (λ i. lookup i ue.pdu_session_list) ids ∙ y.known) in
    some-injective (sym x.conn ∙ ap (λ s. s.gtp_conn_info) sessions ∙ y.conn)

module _ (E : Type 0) where
  matched-Found :
      (teid spi : ℕ) (c : ChildSa) (cs : Map ChildSa) (ue : RanUe) (info : GtpConnectionInfo)
      (rest : Outcome E (Option ℕ))
      → Serves ue c info
      → After (Found teid ue cs) rest
      → After (Found teid ue ((spi, c) ∷ cs)) (matched teid c info rest)
  unfolding matched
  matched-Found teid spi c cs ue info rest s h = elim (Bool-cases (info.incoming_teid == teid)) [
    | inr b ↦
        rw (b, matched)
          (weaken (Found teid ue ((spi, c) ∷ cs)) rest h (Found-there teid ue spi c cs))
    | inl b ↦
        rw (b, matched)
          (or_panic-bind (Found teid ue ((spi, c) ∷ cs)) c.xfrm_iface _ (λ link e. here (record {
            info = info;
            serves = s;
            teid_of = (==_iff info.incoming_teid teid).0 b;
            link = link;
            iface = e;
            index_of = refl;
          })))
  ]

  on_session-Found :
      (teid spi id : ℕ) (c : ChildSa) (cs : Map ChildSa) (ue : RanUe) (o : Option PduSession)
      (rest : Outcome E (Option ℕ))
      → get_elem? c.pdu_session_ids 0 ≡ some id
      → lookup id ue.pdu_session_list ≡ o
      → After (Found teid ue cs) rest
      → After (Found teid ue ((spi, c) ∷ cs)) (on_session teid c o rest)
  unfolding on_session
  on_session-Found teid spi id c cs ue none rest first known h =
      weaken (Found teid ue ((spi, c) ∷ cs)) rest h (Found-there teid ue spi c cs)
  on_session-Found teid spi id c cs ue (some session) rest first known h =
      or_panic-bind (Found teid ue ((spi, c) ∷ cs)) session.gtp_conn_info _ (λ info e.
        matched-Found teid spi c cs ue info rest
          (record { id = id; first = first; session = session; known = known; conn = e }) h)

  downlink_interface-Found :
      (teid : ℕ) (cs : Map ChildSa) (ue : RanUe)
      → After (Found teid ue cs) (downlink_interface {E = E} teid cs ue)
  unfolding downlink_interface
  downlink_interface-Found teid [] ue = tt
  downlink_interface-Found teid ((spi, c) ∷ cs) ue =
      or_panic-bind (Found teid ue ((spi, c) ∷ cs)) (get_elem? c.pdu_session_ids 0) _ (λ id e.
        on_session-Found teid spi id c cs ue (find_pdu_session id ue)
          (downlink_interface teid cs ue) e refl (downlink_interface-Found teid cs ue))

-- The RAN UE of a TEID, by the pool of TEIDs, and its IKE UE, by the map between the two.
pub record Owner {S G : Type 0} (teid : ℕ) (w : N3iwf S G) : Type 0 where
  pub ran : ℕ
  pub ike : ℕ
  pub ue : RanUe
  pub ike_ue : IkeUe
  pub owns : lookup teid w.allocated_ue_teid ≡ some ran
  pub ran_object : lookup ran w.ran_ues ≡ some ue
  pub linked : ike_ue_load_from_ngap_id ue.ran_ue_ngap_id w ≡ some ike
  pub ike_object : lookup ike w.ike_ues ≡ some ike_ue

-- What the UE reads from the bytes.
pub record ReadAs (payload : Bytes) (qfi : ℕ) (rqi : Bool) (bytes : Bytes) : Type 0 where
  pub no_error : (Gre.unmarshal empty bytes).1 ≡ none
  pub read_qfi : get_qfi (Gre.unmarshal empty bytes).0 ≡ (qfi, none)
  pub read_rqi : get_rqi (Gre.unmarshal empty bytes).0 ≡ rqi
  pub read_payload : get_payload (Gre.unmarshal empty bytes).0 ≡ (payload, ipv4)

-- A packet to the inner address of the owner of the TEID, out of the interface of one of its child
-- SAs that carry the TEID, which the UE reads as the payload with these QoS parameters.
pub data Delivered {S G : Type 0} (teid : ℕ) (payload : Bytes) (qfi : ℕ) (rqi : Bool)
    (w : N3iwf S G) : Sent → Type 0 where
  delivered :
      {bytes : Bytes} {i : ℕ} (o : Owner teid w)
      → Carried teid i o.ue o.ike_ue.child_security_association
      → ReadAs payload qfi rqi bytes
      → Delivered teid payload qfi rqi w (to_ue bytes i o.ike_ue.ipsec_inner_ip_addr)

-- The QoS parameters of a packet, zero and clear without a session container.
abbrev pub qfi_of : QosTpduPacket → ℕ
qfi_of p = (downlink_qos p).0 % 64

abbrev pub rqi_of : QosTpduPacket → Bool
rqi_of p = (downlink_qos p).1

downlink_packet-ReadAs :
    (p : QosTpduPacket)
    → (downlink_qos p).0 < 256
    → ReadAs p.tpdu.payload (qfi_of p) (rqi_of p) (downlink_packet p)
unfolding downlink_packet
downlink_packet-ReadAs p h =
    let (e, k, q, r, b) = read_dl p.tpdu.payload (downlink_qos p).0 (downlink_qos p).1 h in
    record { no_error = e; read_qfi = q; read_rqi = r; read_payload = b }

module _ {S G : Type 0} where
  -- The packet `p` is delivered by each of these.
  abbrev pub AllDelivered : QosTpduPacket → N3iwf S G → List Sent → Type 0
  AllDelivered p w = All (Delivered p.tpdu.teid p.tpdu.payload (qfi_of p) (rqi_of p) w)

module _ {S G : Type 0} (E : Type 0) where
  deliver-Delivered :
      (p : QosTpduPacket) (w : N3iwf S G) (o : Owner p.tpdu.teid w) (found : Option ℕ)
      → (downlink_qos p).0 < 256
      → Found p.tpdu.teid o.ue o.ike_ue.child_security_association found
      → AllDelivered p w (deliver p o.ike_ue.ipsec_inner_ip_addr found)
  unfolding deliver
  deliver-Delivered p w o none q c = tt
  deliver-Delivered p w o (some i) q c = (delivered o c (downlink_packet-ReadAs p q), tt)

  forward_to-Delivered :
      (p : QosTpduPacket) (w : N3iwf S G) (r u : ℕ) (ue : RanUe)
      → (downlink_qos p).0 < 256
      → lookup p.tpdu.teid w.allocated_ue_teid ≡ some r
      → lookup r w.ran_ues ≡ some ue
      → ike_ue_load_from_ngap_id ue.ran_ue_ngap_id w ≡ some u
      → After (AllDelivered p w) (forward_to {E = E} p u ue w)
  unfolding forward_to
  forward_to-Delivered p w r u ue q owns ran linked =
      or_panic-bind (AllDelivered p w) (lookup u w.ike_ues) _ (λ ike_ue e.
        let o : Owner p.tpdu.teid w = record {
          ran = r;
          ike = u;
          ue = ue;
          ike_ue = ike_ue;
          owns = owns;
          ran_object = ran;
          linked = linked;
          ike_object = e;
        } in
        let cs = ike_ue.child_security_association in
        bind-After (AllDelivered p w) (downlink_interface p.tpdu.teid cs ue) _
          (downlink_interface-Found E p.tpdu.teid cs ue)
          (λ found c. deliver-Delivered p w o found q c))

  -- Whatever forwardDL sends for a packet goes to the inner address of the UE that owns its TEID, out
  -- of the interface of a child SA of that UE whose PDU session has the TEID, and is read by the UE as
  -- the payload with the QoS parameters of the packet.
  pub forward_dl-Delivered :
      (p : QosTpduPacket) (w : N3iwf S G)
      → (downlink_qos p).0 < 256
      → After (AllDelivered p w) (forward_dl {E = E} p w)
  unfolding forward_dl
  forward_dl-Delivered p w q = elim (Option-cases (lookup p.tpdu.teid w.allocated_ue_teid)) [
    | inl e ↦ rw (e, forward_dl) tt
    | inr (r, e) ↦
        rw (e, forward_dl)
          (or_panic-bind (AllDelivered p w) (lookup r w.ran_ues) _ (λ ue f.
            elim (Option-cases (ike_ue_load_from_ngap_id ue.ran_ue_ngap_id w)) [
              | inl g ↦ rw g tt
              | inr (u, g) ↦ rw g (forward_to-Delivered p w r u ue q e f g)
            ]))
  ]
