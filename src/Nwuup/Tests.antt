-- ===== src/Nwuup/Tests.antt =====
-- Packets through the gateway of Context.Tests. 133 and 0 are the types of go-gtp's headers.
use n3iwf.Prelude.{ℕ, ◌≡◌, refl, true, false, All, [], ◌∷◌, Option, none, some, arith}
use n3iwf.Prelude.Bytes.{Bytes}
use n3iwf.Prelude.Map.{lookup, insert}
use n3iwf.Prelude.Outcome.{ok, After}
use n3iwf.Context.{
  N3iwf, ike_spi_ngap_id_mapping, ran_ue_load_from_ike_spi, ike_ue_load_from_ngap_id,
}
use n3iwf.Sa.{IkeUe}
use n3iwf.Context.Tests.{gateway, ue, session, ike_ue, ike_sa, child, ipsec1}
use n3iwf.Gre
use n3iwf.Gre.Qos.{dl_packet}
use n3iwf.Gtp.{Header, Tpdu, QosTpduPacket, get_qos_parameters, ul_header}
use n3iwf.Nwuup.{
  Sent, gtp_packet, forward_dl, forward_ul, handle_qos_tpdu, on_interface, downlink_qos,
}
use n3iwf.Nwuup.Downlink.{AllDelivered, Delivered, Owner, Serves, here, there, forward_dl-Delivered}
use n3iwf.Nwuup.Downlink.Sends.{signalling, whole, handle_qos_tpdu-Delivered}
use n3iwf.Nwuup.Uplink.{Source, Forwarded, forward_ul-Forwarded}
use n3iwf.Nwuup.Uplink.Sends.{forward_ul-sends}

abbrev linked : N3iwf ℕ ℕ
linked = ike_spi_ngap_id_mapping 900 4 gateway

-- The UE with the child SA of the signalling in front: its session ID is not a session's, and it has no
-- interface.
abbrev with_signalling : IkeUe
with_signalling = record ike_ue {
  child_security_association =
      (
        77,
        record child {
          inbound_spi = 77;
          pdu_session_ids = 18446744073709551615 ∷ [];
          xfrm_iface = none;
        },
      )
      ∷ ike_ue.child_security_association;
}

abbrev signalled : N3iwf ℕ ℕ
signalled = record linked { ike_ues = (6, with_signalling) ∷ [] }

abbrev pdu : Tpdu
pdu = record {
  teid = 3;
  payload = 69 ∷ 1 ∷ [];
  has_extension_header = true;
  extension_headers = record { type = 133; content = 0 ∷ 73 ∷ []; next_type = 0 } ∷ [];
}

abbrev packet : QosTpduPacket
packet = record { tpdu = pdu; qos = true; rqi = true; qfi = 9 }

owner : Owner 3 linked
unfolding lookup ike_spi_ngap_id_mapping ike_ue_load_from_ngap_id insert
owner = record {
  ran = 7;
  ike = 6;
  ue = ue;
  ike_ue = ike_ue;
  owns = refl;
  ran_object = refl;
  linked = refl;
  ike_object = refl;
}

connected_owner : Owner 3 signalled
unfolding lookup ike_spi_ngap_id_mapping ike_ue_load_from_ngap_id insert
connected_owner = record {
  ran = 7;
  ike = 6;
  ue = ue;
  ike_ue = with_signalling;
  owns = refl;
  ran_object = refl;
  linked = refl;
  ike_object = refl;
}

source : Source 12 linked
unfolding lookup ike_spi_ngap_id_mapping ran_ue_load_from_ike_spi insert
source = record {
  ike = 6;
  sa = 5;
  ran = 7;
  ike_ue = ike_ue;
  ike_sa = ike_sa;
  ue = ue;
  owns = refl;
  ike_object = refl;
  associated = refl;
  sa_object = refl;
  linked = refl;
  ran_object = refl;
}

serves : Serves ue child (record { upf_udp_addr = 77; incoming_teid = 3; outgoing_teid = 21 })
unfolding lookup
serves = record { id = 1; first = refl; session = session; known = refl; conn = refl }

forward_dl-Delivered_example :
    After (AllDelivered packet linked) (forward_dl {E = Unit {0}} packet linked)
unfolding downlink_qos get_qos_parameters
forward_dl-Delivered_example = forward_dl-Delivered (Unit {0}) packet linked (omega arith)

handle_qos_tpdu-Delivered_example :
    (m : Sent) × (handle_qos_tpdu 133 pdu signalled ≡ ok (m ∷ []))
    × Delivered 3 (69 ∷ 1 ∷ []) 9 true signalled m
unfolding owner connected_owner lookup
handle_qos_tpdu-Delivered_example =
    handle_qos_tpdu-Delivered 133 pdu 73 8 signalled connected_owner
      (((omega arith, (omega arith, tt)), λ e. omega arith), tt) refl refl
      (
        signalling 18446744073709551615 refl refl,
        (whole (record { info = _; serves = serves; link = ipsec1; iface = refl }), tt),
      )
      (there (
        here (record {
          info = _;
          serves = serves;
          teid_of = refl;
          link = ipsec1;
          iface = refl;
          index_of = refl;
        })))

-- A serialiser for the examples: the TEID, the extension headers, the payload.
abbrev serialise : Header → Option Bytes
serialise h = some (h.teid ∷ h.payload)

abbrev from_ue : Bytes
from_ue = Gre.marshal (dl_packet (69 ∷ []) 9 false)

forward_ul-Forwarded_example :
    After
      (All (Forwarded serialise 133 0 12 8 (Gre.unmarshal Gre.empty from_ue).0 linked))
      (forward_ul {E = Unit {0}} serialise 133 0 12 8 from_ue linked)
forward_ul-Forwarded_example = forward_ul-Forwarded serialise 133 0 (Unit {0}) 12 8 from_ue linked

forward_ul-sends_example :
    forward_ul {E = Unit {0}} serialise 133 0 12 8 from_ue linked
    ≡ ok (gtp_packet (21 ∷ 69 ∷ []) 77 ∷ [])
unfolding source on_interface lookup ul_header
forward_ul-sends_example =
    forward_ul-sends serialise 133 0 12 8 40 9 false (69 ∷ []) (21 ∷ 69 ∷ []) linked source session
      _ child [] [] refl tt (record { on = refl; id = 1; first = refl; known = refl }) refl
      (omega arith) refl
