-- ===== src/Ike/Exchange.antt =====
-- The IKE_AUTH exchange of internal/ike/handler.go, as data: the payloads of a request and the loop of
-- HandleIKEAUTH over them, the responses, and what the handler uses of packages ike and crypto.
--
-- Constants are those of RFC 7296, RFC 3748 and TS 24.502. Certificates, which the handler only logs and
-- stores, are left out, and so is what a traffic selector of a request says, which no code reads.
use n3iwf.Prelude.{ℕ, Bool, true, false, List, [], ◌∷◌, Option, none, some, ◌==◌, if◌then◌else◌}
use n3iwf.Prelude.Bytes.{Bytes}
use n3iwf.Prelude.Map.{insert}
use n3iwf.Prelude.Outcome.{ok, out_of_fuel}
use n3iwf.Sa.{IkeSa, ChildSaKey}
use n3iwf.Context.{IpPool, Go}
use n3iwf.Context.Children.{Host}
use n3iwf.Events.{NgapEvt}
use n3iwf.Ike.Proposal.{Proposal}
use n3iwf.Ike.Xfrm.{KernelAdd}

-- An EAP packet: the code, the identifier, and EapTypeData, which is nil, of the expanded type (vendor
-- ID, vendor type, vendor data), or of another one.
pub data EapTypeData : Type 0 where
  no_type_data other_type_data : EapTypeData
  expanded : ℕ → ℕ → Bytes → EapTypeData

pub record Eap : Type 0 where
  pub code : ℕ
  pub identifier : ℕ
  pub type_data : EapTypeData

pub data Payload : Type 0 where
  id_payload auth_payload : Bytes → Payload
  sa_payload : List Proposal → Payload
  ts_i_payload ts_r_payload other_payload : Payload
  eap_payload : Eap → Payload
  -- the types of the configuration attributes
  cp_payload : List ℕ → Payload

pub record AuthRequest : Type 0 where
  pub initiator_spi : ℕ
  pub responder_spi : ℕ
  pub message_id : ℕ
  pub payloads : List Payload

-- The last payload of each type.
pub record Parsed : Type 0 where
  pub initiator_id : Option Bytes
  pub security_association : Option (List Proposal)
  pub has_ts_i : Bool
  pub has_ts_r : Bool
  pub payload_eap : Option Eap
  pub authentication : Option Bytes
  pub configuration : Option (List ℕ)

abbrev pub no_payloads : Parsed
no_payloads = record {
  initiator_id = none;
  security_association = none;
  has_ts_i = false;
  has_ts_r = false;
  payload_eap = none;
  authentication = none;
  configuration = none;
}

abbrev parse_payload : Payload → Parsed → Parsed
parse_payload (id_payload d) p = record p { initiator_id = some d }
parse_payload (auth_payload d) p = record p { authentication = some d }
parse_payload (sa_payload ps) p = record p { security_association = some ps }
parse_payload ts_i_payload p = record p { has_ts_i = true }
parse_payload ts_r_payload p = record p { has_ts_r = true }
parse_payload (eap_payload e) p = record p { payload_eap = some e }
parse_payload (cp_payload types) p = record p { configuration = some types }
parse_payload other_payload p = p

unfoldable pub parse_payloads : List Payload → Parsed → Parsed
parse_payloads [] p = p
parse_payloads (x ∷ xs) p = parse_payloads xs (parse_payload x p)

-- What a response holds: for 5G-Start the signature and the identifier, for the last response the MAC,
-- the address of the UE and the security association with the gateway's SPI.
pub data AuthBody : Type 0 where
  no_proposal_chosen authentication_failed : AuthBody
  eap_failure : ℕ → AuthBody
  eap_5g_start : Bytes → ℕ → AuthBody
  established : Bytes → ℕ → List Proposal → AuthBody
  eap_success : ℕ → AuthBody
  eap_5g_nas : ℕ → Bytes → AuthBody

-- What SendIKEMessageToUE is called with; `keys` is the pointer to the IKE SA.
pub record Response : Type 0 where
  pub connection : ℕ
  pub keys : ℕ
  pub initiator_spi : ℕ
  pub responder_spi : ℕ
  pub message_id : ℕ
  pub body : AuthBody

pub data AuthSent : Type 0 where
  to_ue : Response → AuthSent
  to_ngap : NgapEvt → AuthSent

-- A message to the UE.
abbrev pub IsReply : AuthSent → Type 0
IsReply (to_ue r) = Unit {0}
IsReply (to_ngap e) = ⊥

-- For the IKE SA at a pointer: its Prf_i over some data, and its PRF under a key; the SHA-1 and RSA
-- signature of data, which is nil if signing fails; ChildSAKey of a proposal, and the keys that are
-- generated for it. Then the pool of inner addresses with the gateway's address and the loop's fuel,
-- whether ResolveIPAddr takes an address, the kernel, the ID of the XFRM interface, the address to bind
-- to, the address (also as text) and the ports of a connection, whether BuildEAP5GNAS takes a NAS message,
-- and whether SendIKEMessageToUE succeeds.
pub record AuthEnv (S K : Type 0) : Type 0 where
  pub encode_id : Bytes → Option Bytes
  pub prf_i : ℕ → Bytes → Option Bytes
  pub prf : ℕ → Bytes → Bytes → Option Bytes
  pub sign : Bytes → Bytes
  pub new_child_sa_key : Proposal → Option ChildSaKey
  pub generate_key : ℕ → ChildSaKey → Option ChildSaKey
  pub pool : IpPool S
  pub gateway_ip : ℕ
  pub fuel : ℕ
  pub resolves : ℕ → Bool
  pub add : KernelAdd K
  pub xfrm_iface_id : ℕ
  pub bind_addr : ℕ
  pub ue_ip : ℕ → ℕ
  pub ue_port : ℕ → ℕ
  pub ue_address : ℕ → Bytes
  pub carries_nas : Bytes → Bool
  pub n3iwf_port : ℕ → ℕ
  pub sends : Response → Bool

-- The state after a handler and what it sends.
abbrev pub AuthStep : Type 0 → Type 0 → Type 0 → Type 0
AuthStep S G K = Go (Host S G K × List AuthSent)

module _ {S G K : Type 0} where
  -- An assignment through the pointer `a` to an IKE SA.
  unfoldable pub set_ike_sa : ℕ → IkeSa → Host S G K → Host S G K
  set_ike_sa a sa h = record h {
    context = record h.context { ike_sas = insert a sa h.context.ike_sas };
  }

-- A response to a request on a connection.
abbrev pub respond : ℕ → ℕ → AuthRequest → AuthBody → Response
respond connection a m body = record {
  connection = connection;
  keys = a;
  initiator_spi = m.initiator_spi;
  responder_spi = m.responder_spi;
  message_id = m.message_id;
  body = body;
}

-- The loop that draws an EAP identifier other than the last one: the drawn numbers are a list, with none
-- for an error; its end stands for the fuel.
unfoldable pub draw_identifier : ℕ → List (Option ℕ) → Go (Option ℕ)
draw_identifier last [] = out_of_fuel
draw_identifier last (none ∷ draws) = ok none
draw_identifier last (some i ∷ draws) =
    let again = draw_identifier last draws in if i == last then again else ok (some i)
