-- ===== src/Nwuup/Uplink/Sends.antt =====
-- A packet of the UE reaches the UPF.
use n3iwf.Prelude.{
  ap, arith, All, ℕ, ◌%◌, ◌<◌, ◌≡◌, refl, ◌∙◌, Bool, true, false, [], ◌∷◌, ◌++◌, Option, none, some,
}
use n3iwf.Prelude.Bytes.{Bytes}
use n3iwf.Prelude.Map.{Map}
use n3iwf.Prelude.Outcome.{ok, bind-ok, bind-some, or_fail}
use n3iwf.Sa.{ChildSa}
use n3iwf.Context.{GtpConnectionInfo, PduSession, RanUe, N3iwf}
use n3iwf.Gre.{GrePacket, empty, get_qfi, get_key_flag}
use n3iwf.Gre
use n3iwf.Gre.Qos.{dl_packet, read_dl}
use n3iwf.Gtp.{Header, ul_header, build_qos_gtp_packet}
use n3iwf.Gtp
use n3iwf.Nwuup.{
  gtp_packet, on_interface, uplink_session, built, with_qfi, send_uplink, uplink_packet, forward_ul,
}
use n3iwf.Nwuup.Uplink.{Brings, Source}

module _ (E : Type 0) where
  uplink_session-ok :
      (i spi : ℕ) (ue : RanUe) (session : PduSession) (c : ChildSa) (before after : Map ChildSa)
      → All (λ x. on_interface i x.1 ≡ false) before
      → Brings i ue session c
      → uplink_session {E = E} i (before ++ (spi, c) ∷ after) ue ≡ ok (some session)
  unfolding uplink_session
  uplink_session-ok i spi ue session c [] after others b =
      rw (b.on, b.first, b.known, uplink_session) refl
  uplink_session-ok i spi ue session c ((j, d) ∷ before) after (off, others) b =
      rw (off, uplink_session) (uplink_session-ok i spi ue session c before after others b)

uplink_packet-keyed :
    (marshal : Header → Option Bytes) (sc no_more q : ℕ) (payload packet : Bytes)
    (session : PduSession) (info : GtpConnectionInfo) (r : GrePacket × Option Gre.Error)
    → session.gtp_conn_info ≡ some info
    → marshal (ul_header sc no_more info.outgoing_teid q payload) ≡ some packet
    → r.1 ≡ none
    → get_key_flag r.0 ≡ true
    → get_qfi r.0 ≡ (q, none)
    → r.0.payload ≡ payload
    → uplink_packet {E = Unit {0}} marshal sc no_more (some session) r
      ≡ ok (gtp_packet packet info.upf_udp_addr ∷ [])
unfolding uplink_packet send_uplink with_qfi built build_qos_gtp_packet
uplink_packet-keyed marshal sc no_more q payload packet session info (p, some x) conn ser n k f b =
    absurd (ground arith)
uplink_packet-keyed marshal sc no_more q payload packet session info (p, none) conn ser n k f b =
    rw (k, f)
      (bind-some _ conn
        ∙ ap (λ bytes. built marshal sc no_more info (or_fail bytes Gtp.marshal_failed))
            (ap (λ d. marshal (ul_header sc no_more info.outgoing_teid q d)) b ∙ ser))

-- An address with a source, and the first child SA on interface `i` brings a session with a connection:
-- the payload of a GRE packet of the UE goes out as one GTP packet to the UPF of the session, with the
-- lower six bits of the QFI in a session container, if go-gtp serialises the packet.
pub forward_ul-sends :
    {S G : Type 0} (marshal : Header → Option Bytes) (sc no_more ip i spi qfi : ℕ) (rqi : Bool)
    (payload packet : Bytes) (w : N3iwf S G) (o : Source ip w) (session : PduSession)
    (info : GtpConnectionInfo) (c : ChildSa) (before after : Map ChildSa)
    → o.ike_ue.child_security_association ≡ before ++ (spi, c) ∷ after
    → All (λ x. on_interface i x.1 ≡ false) before
    → Brings i o.ue session c
    → session.gtp_conn_info ≡ some info
    → qfi < 256
    → marshal (ul_header sc no_more info.outgoing_teid (qfi % 64) payload) ≡ some packet
    → forward_ul {E = Unit {0}} marshal sc no_more ip i (Gre.marshal (dl_packet payload qfi rqi)) w
      ≡ ok (gtp_packet packet info.upf_udp_addr ∷ [])
unfolding forward_ul Gre.get_payload
forward_ul-sends marshal sc no_more ip i spi qfi rqi payload packet w o session info c before after
      split others b conn q ser =
    let found : uplink_session {E = Unit {0}} i o.ike_ue.child_security_association o.ue
        ≡ ok (some session) =
      ap (λ cs. uplink_session i cs o.ue) split
      ∙ uplink_session-ok (Unit {0}) i spi o.ue session c before after others b in
    rw (o.owns, forward_ul)
      (bind-some _ o.ike_object
        ∙ (bind-some _ o.associated
            ∙ (bind-some _ o.sa_object
                ∙ rw o.linked (
                    bind-some _ o.ran_object
                    ∙ (bind-ok _ found
                        ∙ (let (n, k, f, r, b) = read_dl payload qfi rqi q in
                            uplink_packet-keyed marshal sc no_more (qfi % 64) payload packet session
                              info (Gre.unmarshal empty (Gre.marshal (dl_packet payload qfi rqi)))
                              conn ser n k f (ap (λ x. x.0) b)))))))
