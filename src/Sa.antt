-- ===== src/Sa.antt =====
-- internal/context/ikeue.go: the IKE UE with its security associations, as data.
--
-- A pointer to an IKE SA or an IKE UE is a number (see Context). A child SA is held by one UE only,
-- in one map at a time, and so is a value. An address is a number. Of the netlink structs the fields
-- that vary are there. An `int` and an int64 are their two's complement patterns of 64 bits. IkeSa has
-- the signed octets of both sides and the proposals of IKEAuthResponseSA, and not the identification,
-- certificate and traffic selectors of the initiator, which no modelled code reads.
use n3iwf.Prelude.{ℕ, Bool, false, List, [], ◌∷◌, Option, none}
use n3iwf.Prelude.Bytes.{Bytes}
use n3iwf.Prelude.Map.{Map, insert}
use n3iwf.Ike.Proposal.{Proposal}

-- The names of algorithms in the kernel; `unnamed` is the empty string.
pub data AlgName : Type 0 where
  cbc_des cbc_des3_ede cbc_cast5 cbc_blowfish ecb_cipher_null cbc_aes rfc3686_ctr_aes : AlgName
  hmac_md5 hmac_sha1 xcbc_aes hmac_sha256 unnamed : AlgName

-- netlink.XfrmStateAlgo
pub record XfrmAlgo : Type 0 where
  pub name : AlgName
  pub key : Bytes
  pub truncate_len : ℕ

-- netlink.XfrmState; `encap` has the source port and the destination port.
pub record XfrmState : Type 0 where
  pub src : ℕ
  pub dst : ℕ
  pub spi : ℕ
  pub ifid : ℕ
  pub auth : Option XfrmAlgo
  pub crypt : XfrmAlgo
  pub needs_esn : Bool
  pub encap : Option (ℕ × ℕ)

-- netlink.XfrmPolicy with its one template. The selectors are networks of one address.
pub record XfrmPolicy : Type 0 where
  pub from : ℕ
  pub to : ℕ
  pub proto : ℕ
  pub is_in : Bool
  pub policy_ifid : ℕ
  pub tmpl_src : ℕ
  pub tmpl_dst : ℕ
  pub tmpl_spi : ℕ

-- netlink.Link, by its attributes
pub record Link : Type 0 where
  pub name : Bytes
  pub index : ℕ

-- ChildSAKey of package ike/security: the transforms' IDs, and the keys of both directions.
pub record ChildSaKey : Type 0 where
  pub encr_id : ℕ
  pub integ_id : Option ℕ
  pub need_esn : Bool
  pub initiator_encryption_key : Bytes
  pub initiator_integrity_key : Bytes
  pub responder_encryption_key : Bytes
  pub responder_integrity_key : Bytes

pub record ChildSa : Type 0 where
  pub inbound_spi : ℕ
  pub outbound_spi : ℕ
  pub xfrm_iface : Option Link
  pub xfrm_state_list : List XfrmState
  pub xfrm_policy_list : List XfrmPolicy
  pub peer_public_ip_addr : ℕ
  pub local_public_ip_addr : ℕ
  pub selected_ip_protocol : ℕ
  pub traffic_selector_local : ℕ
  pub traffic_selector_remote : ℕ
  pub child_sa_key : Option ChildSaKey
  pub enable_encapsulate : Bool
  pub n3iwf_port : ℕ
  pub nat_port : ℕ
  pub local_is_initiator : Bool
  pub pdu_session_ids : List ℕ

-- A new ChildSecurityAssociation
abbrev pub empty_child_sa : ChildSa
empty_child_sa = record {
  inbound_spi = 0;
  outbound_spi = 0;
  xfrm_iface = none;
  xfrm_state_list = [];
  xfrm_policy_list = [];
  peer_public_ip_addr = 0;
  local_public_ip_addr = 0;
  selected_ip_protocol = 0;
  traffic_selector_local = 0;
  traffic_selector_remote = 0;
  child_sa_key = none;
  enable_encapsulate = false;
  n3iwf_port = 0;
  nat_port = 0;
  local_is_initiator = false;
  pdu_session_ids = [];
}

pub record IkeSa : Type 0 where
  pub remote_spi : ℕ
  pub local_spi : ℕ
  pub initiator_message_id : ℕ
  pub responder_message_id : ℕ
  pub state : ℕ
  pub ue_behind_nat : Bool
  pub n3iwf_behind_nat : Bool
  pub ike_ue : Option ℕ
  pub ike_connection : Option ℕ
  pub last_eap_identifier : ℕ
  pub initiator_signed_octets : Bytes
  pub responder_signed_octets : Bytes
  pub ike_auth_response_sa : Option (List Proposal)

-- A new IKESecurityAssociation
abbrev pub empty_ike_sa : IkeSa
empty_ike_sa = record {
  remote_spi = 0;
  local_spi = 0;
  initiator_message_id = 0;
  responder_message_id = 0;
  state = 0;
  ue_behind_nat = false;
  n3iwf_behind_nat = false;
  ike_ue = none;
  ike_connection = none;
  last_eap_identifier = 0;
  initiator_signed_octets = [];
  responder_signed_octets = [];
  ike_auth_response_sa = none;
}

-- The maps are keyed by inbound SPI and by message ID. The inner address is none while it is nil.
pub record IkeUe : Type 0 where
  pub ipsec_inner_ip : Option ℕ
  pub ipsec_inner_ip_addr : Option ℕ
  pub ike_security_association : Option ℕ
  pub child_security_association : Map ChildSa
  pub temporary_exchange : Map ChildSa
  pub kn3iwf : Option Bytes
  pub ike_connection : Option ℕ
  pub pdu_session_list_len : ℕ

-- A new N3IWFIkeUe, after init
abbrev pub empty_ike_ue : IkeUe
empty_ike_ue = record {
  ipsec_inner_ip = none;
  ipsec_inner_ip_addr = none;
  ike_security_association = none;
  child_security_association = [];
  temporary_exchange = [];
  kn3iwf = none;
  ike_connection = none;
  pdu_session_list_len = 0;
}

-- CreateHalfChildSA on the object of the UE
unfoldable pub create_half_child_sa : ℕ → ℕ → ℕ → IkeUe → IkeUe
create_half_child_sa msg_id inbound_spi pdu_session_id ue = record ue {
  temporary_exchange =
      insert msg_id
        (record empty_child_sa { inbound_spi = inbound_spi; pdu_session_ids = pdu_session_id ∷ [] })
        ue.temporary_exchange;
}

-- "xfrmi-default"
abbrev pub xfrmi_default : Bytes
xfrmi_default = 120 ∷ 102 ∷ 114 ∷ 109 ∷ 105 ∷ 45 ∷ 100 ∷ 101 ∷ 102 ∷ 97 ∷ 117 ∷ 108 ∷ 116 ∷ []
