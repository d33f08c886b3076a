-- ===== src/Nwuup.antt =====
-- internal/nwuup/server.go: forwardUL, handleQoSTPDU and forwardDL, which carry user packets between
-- the child SAs of a UE (GRE) and its PDU sessions (GTP-U).
--
-- The sockets are left out: each function has the list of what it writes to them as its result, and
-- an error of a write is only logged. A panic ends the process. go-gtp's serialisation is a parameter.

pub mod Downlink
pub mod Uplink
mod Tests
use n3iwf.Prelude.{ℕ, Bool, false, List, [], ◌∷◌, Option, none, some, ◌==◌, if◌then◌else◌}
use n3iwf.Prelude.Bytes.{Bytes}
use n3iwf.Prelude.Map.{Map, lookup}
use n3iwf.Prelude.Outcome.{Outcome, ok, err, panic, out_of_fuel, ◌>>=◌, index, or_panic}
use n3iwf.Sa.{ChildSa}
use n3iwf.Context.{
  GtpConnectionInfo, PduSession, RanUe, N3iwf, find_pdu_session, ran_ue_load_from_ike_spi,
  ike_ue_load_from_ngap_id,
}
use n3iwf.Gre.{GrePacket, ipv4}
use n3iwf.Gre
use n3iwf.Gtp.{Tpdu, QosTpduPacket, Header, get_qos_parameters, build_qos_gtp_packet}
use n3iwf.Gtp

pub data Sent : Type 0 where
  -- greConn.WriteTo: the bytes, the index of the outgoing interface, and the inner address of the UE
  to_ue : Bytes → ℕ → Option ℕ → Sent
  -- gtpuConn.WriteTo: a whole GTP packet, and the address of the UPF
  gtp_packet : Bytes → ℕ → Sent
  -- gtpuConn.WriteToGTP: the TEID, the payload, and the address of the UPF
  t_pdu : ℕ → Bytes → ℕ → Sent

unfoldable pub on_interface : ℕ → ChildSa → Bool
on_interface i c = elim c.xfrm_iface [ none ↦ false | some link ↦ link.index == i ]

unfoldable pub downlink_qos : QosTpduPacket → ℕ × Bool
downlink_qos p = if p.qos then get_qos_parameters p else (0, false)

unfoldable pub downlink_packet : QosTpduPacket → Bytes
unfolding downlink_qos
downlink_packet p =
    let (qfi, rqi) = downlink_qos p in
    Gre.marshal (Gre.set_qos (Gre.set_payload Gre.empty p.tpdu.payload ipv4) qfi rqi)

-- The write to the inner address, when there is an interface.
deliver : QosTpduPacket → Option ℕ → Option ℕ → List Sent
unfolding downlink_packet
deliver p addr none = []
deliver p addr (some i) = to_ue (downlink_packet p) i addr ∷ []

module _ {E : Type 0} where
  -- The session of the first child SA on the interface, or nil.
  pub uplink_session : ℕ → Map ChildSa → RanUe → Outcome E (Option PduSession)
  unfolding on_interface
  uplink_session i [] ue = ok none
  uplink_session i ((spi, c) ∷ cs) ue =
      let rest = uplink_session i cs ue in
      let this = (do id ← index c.pdu_session_ids 0; ok (lookup id ue.pdu_session_list)) in
      if on_interface i c then this else rest

  matched : ℕ → ChildSa → GtpConnectionInfo → Outcome E (Option ℕ) → Outcome E (Option ℕ)
  matched teid c info rest =
      let this = (do link ← or_panic c.xfrm_iface; ok (some link.index)) in
      if info.incoming_teid == teid then this else rest

  on_session : ℕ → ChildSa → Option PduSession → Outcome E (Option ℕ) → Outcome E (Option ℕ)
  unfolding matched
  on_session teid c none rest = rest
  on_session teid c (some session) rest = do
    info ← or_panic session.gtp_conn_info
    matched teid c info rest

  -- The interface of the first child SA whose session has the TEID.
  pub downlink_interface : ℕ → Map ChildSa → RanUe → Outcome E (Option ℕ)
  unfolding on_session
  downlink_interface teid [] ue = ok none
  downlink_interface teid ((spi, c) ∷ cs) ue = do
    id ← index c.pdu_session_ids 0
    on_session teid c (find_pdu_session id ue) (downlink_interface teid cs ue)

  module _ {S G : Type 0} where
    forward_to : QosTpduPacket → ℕ → RanUe → N3iwf S G → Outcome E (List Sent)
    unfolding downlink_interface deliver
    forward_to p u ue w = do
      ike_ue ← or_panic (lookup u w.ike_ues)
      found ← downlink_interface p.tpdu.teid ike_ue.child_security_association ue
      ok (deliver p ike_ue.ipsec_inner_ip_addr found)

    unfoldable pub forward_dl : QosTpduPacket → N3iwf S G → Outcome E (List Sent)
    unfolding forward_to
    forward_dl p w = elim (lookup p.tpdu.teid w.allocated_ue_teid) [
      | none ↦ ok []
      | some r ↦ do
        ue ← or_panic (lookup r w.ran_ues)
        elim (ike_ue_load_from_ngap_id ue.ran_ue_ngap_id w) [
          | none ↦ ok []
          | some u ↦ forward_to p u ue w
        ]
    ]

unfoldable pub handle_qos_tpdu :
    {S G : Type 0} → ℕ → Tpdu → N3iwf S G → Outcome Gtp.Error (List Sent)
handle_qos_tpdu session_container pdu w = do p ← Gtp.unmarshal session_container pdu; forward_dl p w

module _ {E : Type 0} (marshal : Header → Option Bytes) (session_container no_more : ℕ) where
  built : GtpConnectionInfo → Outcome Gtp.Error Bytes → Outcome E (List Sent)
  built info (ok packet) = ok (gtp_packet packet info.upf_udp_addr ∷ [])
  built info (err e) = ok []
  built info panic = panic
  built info out_of_fuel = out_of_fuel

  with_qfi : Option GtpConnectionInfo → Bytes → ℕ × Option Gre.Error → Outcome E (List Sent)
  unfolding built
  with_qfi conn payload (qfi, some e) = ok []
  with_qfi conn payload (qfi, none) = do
    info ← or_panic conn
    built info
        (build_qos_gtp_packet session_container marshal no_more info.outgoing_teid qfi payload)

  unfoldable pub send_uplink : Option GtpConnectionInfo → GrePacket → Outcome E (List Sent)
  unfolding with_qfi
  send_uplink conn p =
      let keyed = with_qfi conn p.payload (Gre.get_qfi p) in
      let plain = (do
        info ← or_panic conn
        ok (t_pdu info.outgoing_teid p.payload info.upf_udp_addr ∷ [])) in
      if Gre.get_key_flag p then keyed else plain

  unfoldable pub uplink_packet :
      Option PduSession → GrePacket × Option Gre.Error → Outcome E (List Sent)
  unfolding send_uplink
  uplink_packet none r = ok []
  uplink_packet (some session) (p, some e) = ok []
  uplink_packet (some session) (p, none) = send_uplink session.gtp_conn_info p

  unfoldable pub forward_ul : {S G : Type 0} → ℕ → ℕ → Bytes → N3iwf S G → Outcome E (List Sent)
  unfolding uplink_packet
  forward_ul ue_inner_ip if_index raw_data w = elim (lookup ue_inner_ip w.allocated_ue_ip_address) [
    | none ↦ ok []
    | some u ↦ do
      ike_ue ← or_panic (lookup u w.ike_ues)
      a ← or_panic ike_ue.ike_security_association
      ike_sa ← or_panic (lookup a w.ike_sas)
      elim (ran_ue_load_from_ike_spi ike_sa.local_spi w) [
        | none ↦ ok []
        | some r ↦ do
          ue ← or_panic (lookup r w.ran_ues)
          session ← uplink_session if_index ike_ue.child_security_association ue
          uplink_packet session (Gre.unmarshal Gre.empty raw_data)
      ]
  ]
