-- ===== src/Nwuup/Uplink.antt =====
-- From the UE to the core: forwardUL.
pub mod Sends
use n3iwf.Prelude.{
  ap, weaken-All, arith, All, ℕ, ◌%◌, ◌<◌, ◌≡◌, refl, ◌∙◌, inl, inr, Bool, true, false, List, [],
  ◌∷◌, ◌++◌, Option, none, some, ltb, get_elem?, if◌then◌else◌, Bool-cases, Option-cases,
}
use mathlib.Core.Path.{subst}
use n3iwf.Prelude.Bytes.{Bytes}
use n3iwf.Prelude.Map.{Map, lookup}
use n3iwf.Prelude.Outcome.{
  Outcome, ok, err, panic, out_of_fuel, After, weaken, bind-After, or_panic-bind, bind-ok,
  bind-some, ◌>>=◌, index, or_panic, or_fail,
}
use n3iwf.Sa.{ChildSa, IkeUe, IkeSa}
use n3iwf.Context.{GtpConnectionInfo, PduSession, RanUe, N3iwf, ran_ue_load_from_ike_spi}
use n3iwf.Gre.{GrePacket, empty, get_qfi, get_key_flag}
use n3iwf.Gre
use n3iwf.Gre.Qos.{dl_packet, read_dl}
use n3iwf.Gtp.{Header, ul_header, build_qos_gtp_packet}
use n3iwf.Gtp
use n3iwf.Nwuup.{
  Sent, gtp_packet, t_pdu, on_interface, uplink_session, built, with_qfi, send_uplink,
  uplink_packet, forward_ul,
}

-- A child SA on interface `i` whose first PDU session is `session`, of the UE.
pub record Brings (i : ℕ) (ue : RanUe) (session : PduSession) (c : ChildSa) : Type 0 where
  pub on : on_interface i c ≡ true
  pub id : ℕ
  pub first : get_elem? c.pdu_session_ids 0 ≡ some id
  pub known : lookup id ue.pdu_session_list ≡ some session

-- One of the child SAs is such.
pub data Brought (i : ℕ) (ue : RanUe) (session : PduSession) : Map ChildSa → Type 0 where
  here :
      {spi : ℕ} {c : ChildSa} {cs : Map ChildSa}
      → Brings i ue session c
      → Brought i ue session ((spi, c) ∷ cs)
  there :
      {spi : ℕ} {c : ChildSa} {cs : Map ChildSa}
      → Brought i ue session cs
      → Brought i ue session ((spi, c) ∷ cs)

abbrev Found : ℕ → RanUe → Map ChildSa → Option PduSession → Type 0
Found i ue cs none = Unit
Found i ue cs (some session) = Brought i ue session cs

Found-there :
    (i : ℕ) (ue : RanUe) (spi : ℕ) (c : ChildSa) (cs : Map ChildSa) (r : Option PduSession)
    → Found i ue cs r
    → Found i ue ((spi, c) ∷ cs) r
Found-there i ue spi c cs none h = tt
Found-there i ue spi c cs (some session) h = there h

Found-here :
    (i id spi : ℕ) (ue : RanUe) (c : ChildSa) (cs : Map ChildSa) (r : Option PduSession)
    → on_interface i c ≡ true
    → get_elem? c.pdu_session_ids 0 ≡ some id
    → lookup id ue.pdu_session_list ≡ r
    → Found i ue ((spi, c) ∷ cs) r
Found-here i id spi ue c cs none on first known = tt
Found-here i id spi ue c cs (some session) on first known =
    here (record { on = on; id = id; first = first; known = known })

module _ (E : Type 0) where
  uplink_session-Found :
      (i : ℕ) (cs : Map ChildSa) (ue : RanUe)
      → After (Found i ue cs) (uplink_session {E = E} i cs ue)
  unfolding uplink_session
  uplink_session-Found i [] ue = tt
  uplink_session-Found i ((spi, c) ∷ cs) ue = elim (Bool-cases (on_interface i c)) [
    | inr b ↦
        rw (b, uplink_session)
          (weaken (Found i ue ((spi, c) ∷ cs)) (uplink_session i cs ue)
            (uplink_session-Found i cs ue) (Found-there i ue spi c cs))
    | inl b ↦
        rw (b, uplink_session)
          (or_panic-bind (Found i ue ((spi, c) ∷ cs)) (get_elem? c.pdu_session_ids 0) _
            (λ id e. Found-here i id spi ue c cs (lookup id ue.pdu_session_list) b e refl))
  ]

-- The IKE UE of an inner address, and its RAN UE, by the map between the two.
pub record Source {S G : Type 0} (ip : ℕ) (w : N3iwf S G) : Type 0 where
  pub ike : ℕ
  pub sa : ℕ
  pub ran : ℕ
  pub ike_ue : IkeUe
  pub ike_sa : IkeSa
  pub ue : RanUe
  pub owns : lookup ip w.allocated_ue_ip_address ≡ some ike
  pub ike_object : lookup ike w.ike_ues ≡ some ike_ue
  pub associated : ike_ue.ike_security_association ≡ some sa
  pub sa_object : lookup sa w.ike_sas ≡ some ike_sa
  pub linked : ran_ue_load_from_ike_spi ike_sa.local_spi w ≡ some ran
  pub ran_object : lookup ran w.ran_ues ≡ some ue

module _ (marshal : Header → Option Bytes) (sc no_more : ℕ) where
  -- What goes to the UPF on a connection for a GRE packet: with a key, a GTP packet with the QFI in a
  -- session container, and without one a plain T-PDU.
  pub data Carried (info : GtpConnectionInfo) (p : GrePacket) : Sent → Type 0 where
    keyed :
        {packet : Bytes}
        → get_key_flag p ≡ true
        → marshal (ul_header sc no_more info.outgoing_teid (get_qfi p).0 p.payload) ≡ some packet
        → Carried info p (gtp_packet packet info.upf_udp_addr)
    plain :
        get_key_flag p ≡ false
        → Carried info p (t_pdu info.outgoing_teid p.payload info.upf_udp_addr)

  -- It is sent on the connection of a session of the UE that has the inner address, which belongs to a
  -- child SA on the interface.
  pub data Forwarded {S G : Type 0} (ip i : ℕ) (p : GrePacket) (w : N3iwf S G) : Sent → Type 0 where
    forwarded :
        {m : Sent} (o : Source ip w) (session : PduSession) (info : GtpConnectionInfo)
        → Brought i o.ue session o.ike_ue.child_security_association
        → session.gtp_conn_info ≡ some info
        → Carried info p m
        → Forwarded ip i p w m

  module _ (E : Type 0) where
    built-Carried :
        (info : GtpConnectionInfo) (p : GrePacket) (o : Option Bytes)
        → get_key_flag p ≡ true
        → marshal (ul_header sc no_more info.outgoing_teid (get_qfi p).0 p.payload) ≡ o
        → After
            (All (Carried info p))
            (built {E = E} marshal sc no_more info (or_fail o Gtp.marshal_failed))
    unfolding built
    built-Carried info p none k e = tt
    built-Carried info p (some packet) k e = (keyed k e, tt)

    -- What the answer for a session is made of.
    abbrev SentOn : PduSession → GrePacket → Sent → Type 0
    SentOn session p m =
        (info : GtpConnectionInfo) × (session.gtp_conn_info ≡ some info) × Carried info p m

    with_qfi-SentOn :
        (session : PduSession) (p : GrePacket) (r : ℕ × Option Gre.Error)
        → get_key_flag p ≡ true
        → get_qfi p ≡ r
        → After
            (All (SentOn session p))
            (with_qfi {E = E} marshal sc no_more session.gtp_conn_info p.payload r)
    unfolding with_qfi build_qos_gtp_packet
    with_qfi-SentOn session p (q, some x) k e = tt
    with_qfi-SentOn session p (q, none) k e =
        or_panic-bind (All (SentOn session p)) session.gtp_conn_info _ (λ info f.
          let o = marshal (ul_header sc no_more info.outgoing_teid q p.payload) in
          weaken (All (SentOn session p))
            (built marshal sc no_more info (or_fail o Gtp.marshal_failed))
            (built-Carried info p o k
              (ap (λ y. marshal (ul_header sc no_more info.outgoing_teid y.0 p.payload)) e))
            (λ ms h. weaken-All (Carried info p) (SentOn session p) ms h (λ m c. (info, f, c))))

    send_uplink-SentOn :
        (session : PduSession) (p : GrePacket)
        → After
            (All (SentOn session p))
            (send_uplink {E = E} marshal sc no_more session.gtp_conn_info p)
    unfolding send_uplink
    send_uplink-SentOn session p = elim (Bool-cases (get_key_flag p)) [
      | inr b ↦
          rw (b, send_uplink)
            (or_panic-bind (All (SentOn session p)) session.gtp_conn_info _
              (λ info e. ((info, e, plain b), tt)))
      | inl b ↦ rw (b, send_uplink) (with_qfi-SentOn session p (get_qfi p) b refl)
    ]

    module _ {S G : Type 0} where
      uplink_packet-Forwarded :
          (ip i : ℕ) (r : GrePacket × Option Gre.Error) (w : N3iwf S G) (o : Source ip w)
          (found : Option PduSession)
          → Found i o.ue o.ike_ue.child_security_association found
          → After (All (Forwarded ip i r.0 w)) (uplink_packet {E = E} marshal sc no_more found r)
      unfolding uplink_packet
      uplink_packet-Forwarded ip i r w o none c = tt
      uplink_packet-Forwarded ip i (p, some e) w o (some session) c = tt
      uplink_packet-Forwarded ip i (p, none) w o (some session) c =
          weaken (All (Forwarded ip i p w)) (send_uplink marshal sc no_more session.gtp_conn_info p)
            (send_uplink-SentOn session p)
            (λ ms h.
              weaken-All (SentOn session p) (Forwarded ip i p w) ms h
                (λ m (info, e, d). forwarded o session info c e d))

      -- Whatever forwardUL sends for bytes from an inner address goes out on the connection of a PDU
      -- session that belongs to the UE of that address and to a child SA on the interface, and it is the
      -- payload of the GRE packet, with its QFI in a session container if the packet has a key.
      pub forward_ul-Forwarded :
          (ip i : ℕ) (raw : Bytes) (w : N3iwf S G)
          → After
              (All (Forwarded ip i (Gre.unmarshal empty raw).0 w))
              (forward_ul {E = E} marshal sc no_more ip i raw w)
      unfolding forward_ul
      forward_ul-Forwarded ip i raw w =
          let r = Gre.unmarshal empty raw in
          let Q = All (Forwarded ip i r.0 w) in
          elim (Option-cases (lookup ip w.allocated_ue_ip_address)) [
            | inl e ↦ rw (e, forward_ul) tt
            | inr (u, e) ↦
                rw (e, forward_ul)
                  (or_panic-bind Q (lookup u w.ike_ues) _ (λ ike_ue f.
                    or_panic-bind Q ike_ue.ike_security_association _ (λ a g.
                      or_panic-bind Q (lookup a w.ike_sas) _ (λ ike_sa h.
                        elim (Option-cases (ran_ue_load_from_ike_spi ike_sa.local_spi w)) [
                          | inl l ↦ rw l tt
                          | inr (n, l) ↦ rw l (
                              or_panic-bind Q (lookup n w.ran_ues) _ (λ ue k.
                                let o : Source ip w = record {
                                  ike = u;
                                  sa = a;
                                  ran = n;
                                  ike_ue = ike_ue;
                                  ike_sa = ike_sa;
                                  ue = ue;
                                  owns = e;
                                  ike_object = f;
                                  associated = g;
                                  sa_object = h;
                                  linked = l;
                                  ran_object = k;
                                } in
                                let cs = ike_ue.child_security_association in
                                bind-After Q (uplink_session i cs ue) _
                                  (uplink_session-Found E i cs ue)
                                  (λ found c. uplink_packet-Forwarded ip i r w o found c)))
                        ]))))
          ]
