-- ===== src/Context/Tests.antt =====
-- A gateway with one UE, and an ID generator that counts.
use n3iwf.Prelude.{
  List, at_head, further, zero, ℕ, suc, ◌<◌, ◌≡◌, refl, [], ◌∷◌, Option, none, some, arith,
}
use n3iwf.Prelude.Bytes.{Bytes}
use n3iwf.Prelude.Map.{lookup}
use n3iwf.Prelude.Outcome.{ok}
use n3iwf.Prelude.{true, false}
use n3iwf.Sa.{
  cbc_aes, XfrmState, XfrmPolicy, ChildSaKey, Link, ChildSa, IkeSa, IkeUe, empty_child_sa,
  empty_ike_sa, empty_ike_ue,
}
use n3iwf.Sa.{create_half_child_sa}
use n3iwf.Context.{IpPool}
use n3iwf.Context.Allocate.{
  PoolLaws, NewIp, Associated, new_ipsec_inner_ue_ip, new_ipsec_inner_ue_ip-NewIp,
  new_ike_security_association, new_ike_security_association-Associated,
}
use n3iwf.Context.Children.{
  Kernel, Host, done, failed, no_half_child_sa, set_ike_ue, complete_child_sa,
}
use n3iwf.Context.Children.Complete.{joined, Completed, complete-create}
use n3iwf.Context.Children.Uninstalled.{NeverRefuses, IsInstalled, own}
use n3iwf.Context.{IdGenerator, PduSession, new_pdu_session, RanUe, Amf, N3iwf, init, new_teid}
use n3iwf.Context.Teid.{GeneratorLaws, TeidsInUse, NewTeid, new_teid-NewTeid}
use n3iwf.Context.Selection.{amf_selection}
use n3iwf.Context.Selection.Chosen.{Chosen, amf_selection-Chosen}

abbrev pub counter : IdGenerator ℕ
counter = record { allocate = λ s. some (s, suc s); free_id = λ i s. s }

pub counter_laws : GeneratorLaws counter
counter_laws = record {
  InUse = λ s i. i < s;
  fresh = λ s s' i e h. ground arith;
  taken = λ s s' i e. ground arith;
  kept = λ s s' i j e h. ground arith;
  kept_by_free = λ s i j n h. h;
}

-- UE 4, at pointer 7, with PDU session 1 on TEID 3. It has a connection and a cached NAS message.
abbrev pub session : PduSession
session = record (new_pdu_session 1 0) {
  gtp_conn_info = some (record { upf_udp_addr = 77; incoming_teid = 3; outgoing_teid = 21 });
}

abbrev pub ue : RanUe
ue = record (init 4) {
  amf = some 2;
  pdu_session_list = (1, session) ∷ [];
  cached_nas = some (126 ∷ []);
  tcp_connection = some 11;
}

-- GUAMIs are numbers here.
abbrev pub amf : Amf ℕ
amf = record {
  served_guami_list = some (5 ∷ []);
  plmn_support_list = some ((2 ∷ 248 ∷ 57 ∷ []) ∷ []);
  ran_ue_list = (4, 7) ∷ [];
}

-- Its child SA 40, with 41 the other way, on the interface `ipsec1`.
abbrev pub ipsec1 : Link
ipsec1 = record { name = 105 ∷ 112 ∷ 49 ∷ []; index = 8 }

abbrev pub inbound_state : XfrmState
inbound_state = record {
  src = 51;
  dst = 50;
  spi = 40;
  ifid = 1;
  auth = none;
  crypt = record { name = cbc_aes; key = 7 ∷ []; truncate_len = 0 };
  needs_esn = false;
  encap = none;
}

abbrev inbound_policy : XfrmPolicy
inbound_policy = record {
  from = 12;
  to = 9;
  proto = 47;
  is_in = true;
  policy_ifid = 1;
  tmpl_src = 51;
  tmpl_dst = 50;
  tmpl_spi = 40;
}

abbrev pub child : ChildSa
child = record empty_child_sa {
  inbound_spi = 40;
  outbound_spi = 41;
  xfrm_iface = some ipsec1;
  xfrm_state_list = inbound_state ∷ [];
  xfrm_policy_list = inbound_policy ∷ [];
  pdu_session_ids = 1 ∷ [];
}

abbrev pub ike_sa : IkeSa
ike_sa = record empty_ike_sa { local_spi = 900; remote_spi = 800; ike_ue = some 6 }

abbrev pub ike_ue : IkeUe
ike_ue = record empty_ike_ue {
  ipsec_inner_ip = some 12;
  ipsec_inner_ip_addr = some 12;
  ike_security_association = some 5;
  ike_connection = some 3;
  child_security_association = (40, child) ∷ [];
}

abbrev pub gateway : N3iwf ℕ ℕ
gateway = record {
  next_pointer = 8;
  ran_ues = (7, ue) ∷ [];
  amfs = (2, amf) ∷ [];
  ran_ue_ngap_ids = 5;
  teids = 4;
  amf_pool = (100, 2) ∷ [];
  ike_ue_pool = (900, 6) ∷ [];
  ran_ue_pool = (4, 7) ∷ [];
  ike_spi_to_ngap_id = [];
  ngap_id_to_ike_spi = [];
  allocated_ue_teid = (3, 7) ∷ [];
  ipsec_inner_ip_pool = 1;
  ike_ues = (6, ike_ue) ∷ [];
  ike_sas = (5, ike_sa) ∷ [];
  allocated_ue_ip_address = (12, 6) ∷ [];
  ikesa = (900, 5) ∷ [];
  child_sa = 40 ∷ [];
  xfrm_ifaces = (1, ipsec1) ∷ [];
}

pub gateway-TeidsInUse : TeidsInUse counter counter_laws gateway
unfolding TeidsInUse lookup counter_laws
gateway-TeidsInUse t p h = ground arith

new_teid-NewTeid_example :
    NewTeid counter counter_laws 7 gateway (new_teid counter 7 gateway)
    × TeidsInUse counter counter_laws (new_teid counter 7 gateway).1
new_teid-NewTeid_example = new_teid-NewTeid counter counter_laws 7 gateway gateway-TeidsInUse

abbrev pub encode_guami : Option ℕ → Option Bytes
encode_guami none = none
encode_guami (some g) = some (g ∷ [])

amf_selection-Chosen_example :
    (r : Option ℕ) × (amf_selection encode_guami (some 5) none gateway ≡ ok r)
    × Chosen encode_guami (some 5) none gateway.amfs none gateway.amf_pool r
unfolding lookup
amf_selection-Chosen_example = amf_selection-Chosen encode_guami (some 5) none gateway (
  record {
    amf = amf;
    guamis = 5 ∷ [];
    plmns = (2 ∷ 248 ∷ 57 ∷ []) ∷ [];
    loads = refl;
    has_guamis = refl;
    has_plmns = refl;
  },
  tt,
)

-- Addresses are counted down; 9 is the gateway's.
abbrev pub countdown : IpPool ℕ
countdown = record {
  allocate = λ s. elim s [ zero ↦ none | suc n ↦ some (suc n, n) ];
  release = λ ip s. some (suc s);
}

countdown_takes : (s s' ip : ℕ) → countdown.allocate s ≡ some (ip, s') → s' < s
countdown_takes zero s' ip e = ground arith
countdown_takes (suc n) s' ip e = ground arith

countdown_laws : PoolLaws countdown
countdown_laws = record { left = λ s. s; takes = countdown_takes }

new_ipsec_inner_ue_ip-NewIp_example :
    (x : Option ℕ × N3iwf ℕ ℕ) × (new_ipsec_inner_ue_ip countdown 9 2 6 gateway ≡ ok x)
    × NewIp countdown 9 6 gateway x
unfolding countdown_laws
new_ipsec_inner_ue_ip-NewIp_example =
    new_ipsec_inner_ue_ip-NewIp countdown 9 countdown_laws 2 6 gateway (omega arith)

-- The first draw is taken.
new_ike_security_association-Associated_example :
    (x : Option ℕ × N3iwf ℕ ℕ) × (new_ike_security_association (some 900 ∷ some 901 ∷ []) gateway
      ≡ ok x)
    × Associated (some 900 ∷ some 901 ∷ []) 8 gateway x
unfolding lookup
new_ike_security_association-Associated_example =
    new_ike_security_association-Associated (some 900 ∷ some 901 ∷ []) 901 gateway (further at_head)
      refl

-- The kernel is the number of deletions.
abbrev pub netlink : Kernel ℕ
netlink = record {
  xfrm_state_del = λ s k. some (suc k);
  xfrm_policy_del = λ p k. some (suc k);
  link_del = λ i k. some (suc k);
}

abbrev pub netlink_laws : NeverRefuses netlink
netlink_laws = record {
  states = λ s k. (suc k, refl);
  policies = λ p k. (suc k, refl);
  links = λ i k. (suc k, refl);
}

abbrev pub host : Host ℕ ℕ ℕ
host = record { context = gateway; kernel = 0 }

pub child-IsInstalled : IsInstalled child
child-IsInstalled = own (inbound_state) refl (omega arith)

abbrev pub key_with : ℕ → ChildSaKey
key_with p = record {
  encr_id = 12;
  integ_id = some 2;
  need_esn = false;
  initiator_encryption_key = p ∷ [];
  initiator_integrity_key = p ∷ [];
  responder_encryption_key = p ∷ [];
  responder_integrity_key = p ∷ [];
}

abbrev pub key_of : ℕ → Option ChildSaKey
key_of p = some (key_with p)

complete-create_example :
    (v : Host ℕ ℕ ℕ) × (complete_child_sa key_of 6 2 51
        (some (3 ∷ []))
        (set_ike_ue 6 (create_half_child_sa 2 50 7 ike_ue) host)
      ≡ ok (v, done (joined 50 51 7 (key_with 3))))
    × Completed 6 2 (joined 50 51 7 (key_with 3)) ike_ue host v
    × ((again : ℕ) (more : Option (List ℕ))
        → complete_child_sa key_of 6 2 again more v ≡ ok (v, failed no_half_child_sa))
complete-create_example = complete-create key_of 6 2 50 51 7 3 [] (key_with 3) ike_ue host refl
