-- ===== src/Context.antt =====
-- N3IWFContext: the pools that the parts of the gateway share, in internal/context/context.go, with
-- the objects that NGAP keeps in them: N3IWFAMF (amf.go), RanUeSharedCtx with PDUSession (ranue.go)
-- and N3IWFRanUe (n3iwf_ue.go).
--
-- A pointer is a number, and `ran_ues`, `amfs`, `ike_ues` and `ike_sas` are the heap: what a pointer
-- leads to. The pools hold pointers. Of the map ChildSA, where the code only looks SPIs up, the list
-- `child_sa` has the keys. A Go map is an association list, and ranges over it in the order of the list, which
-- no theorem fixes. An int64 is its two's complement pattern. The ID generators of package
-- idgenerator are the parameter `IdGenerator`. Closing the TCP connection of a removed UE and log lines
-- are left out.
pub mod Selection
pub mod Pools
pub mod Remove
pub mod Teid
pub mod Mapping
pub mod Children
pub mod Allocate
pub mod Tests
use n3iwf.Prelude.{
  ℕ, ◌+◌, Bool, true, false, List, [], ◌∷◌, Option, none, some, ltb, ◌==◌, ◌&&◌, ◌||◌, not,
  if◌then◌else◌,
}
use n3iwf.Prelude.Bytes.{Bytes, bytes_equal}
use n3iwf.Prelude.Map.{Map, lookup, delete, insert}
use n3iwf.Sa.{ChildSa, Link, IkeSa, IkeUe, empty_ike_ue}
use n3iwf.Prelude.Outcome.{Outcome, ok, err, panic, out_of_fuel, ◌>>=◌, or_panic}

-- Allocate and FreeID of package idgenerator, on its state.
pub record IdGenerator (S : Type 0) : Type 0 where
  pub allocate : S → Option (ℕ × S)
  pub free_id : ℕ → S → S

-- Allocate(nil) and Release of the pool of inner addresses.
pub record IpPool (S : Type 0) : Type 0 where
  pub allocate : S → Option (ℕ × S)
  pub release : ℕ → S → Option S

-- The address of the UPF is a number. So is what the gateway only stores: an S-NSSAI, a bit rate, the
-- type of a session, a network instance, the parameters of a QoS flow, and, of a UE, its GUAMI and the
-- like.
pub record GtpConnectionInfo : Type 0 where
  pub upf_udp_addr : ℕ
  pub incoming_teid : ℕ
  pub outgoing_teid : ℕ

pub record PduSession : Type 0 where
  pub id : ℕ
  pub snssai : ℕ
  pub pdu_session_type : Option ℕ
  pub session_ambr : Option ℕ
  pub network_instance : Option ℕ
  pub security_cipher : Bool
  pub security_integrity : Bool
  pub gtp_conn_info : Option GtpConnectionInfo
  pub qfi_list : List ℕ
  pub qos_flows : Map ℕ

-- The object that CreatePDUSession makes.
abbrev pub new_pdu_session : ℕ → ℕ → PduSession
new_pdu_session id snssai = record {
  id = id;
  snssai = snssai;
  pdu_session_type = none;
  session_ambr = none;
  network_instance = none;
  security_cipher = false;
  security_integrity = false;
  gtp_conn_info = none;
  qfi_list = [];
  qos_flows = [];
}

-- EvtError: the four named errors, and any other string.
pub data EvtError : Type 0 where
  err_nil err_radio_conn_with_ue_lost err_transport_resource_unavailable : EvtError
  err_amf_selection err_other : EvtError

-- The temporary data of a PDU session setup. The response lists hold a session's ID and its transfer.
pub record SetupData : Type 0 where
  pub unactivated : List PduSession
  pub index : ℕ
  pub is_initial_context_setup : Bool
  pub setup_list_cxt : List (ℕ × Bytes)
  pub failed_list_cxt : List (ℕ × Bytes)
  pub setup_list_su : List (ℕ × Bytes)
  pub failed_list_su : List (ℕ × Bytes)
  pub failed_err_str : List EvtError

-- RanUeSharedCtx and N3IWFRanUe, with the fields that the modelled code uses.
pub record RanUe : Type 0 where
  pub ran_ue_ngap_id : ℕ
  pub amf_ue_ngap_id : ℕ
  pub ip_addr_v4 : Bytes
  pub port_number : ℕ
  pub amf : Option ℕ
  pub pdu_session_list : Map PduSession
  pub setup_data : SetupData
  pub rrc_establishment_cause : ℕ
  pub pdu_session_release_list : List ℕ
  pub ue_ctx_rel_state : Bool
  pub pdu_sess_res_rel_state : Bool
  pub cached_nas : Option Bytes
  pub is_nas_tcp_established : Bool
  pub is_nas_tcp_complete : Bool
  pub tcp_connection : Option ℕ
  pub ambr : Option ℕ
  pub guami : Option ℕ
  pub allowed_nssai : Option ℕ
  pub radio_capability : Option ℕ
  pub core_network_assistance_information : Option ℕ
  pub security_capabilities : Option ℕ
  pub masked_imeisv : Option ℕ
  pub index_to_rfsp : ℕ

-- The two lists are nil until NG setup. A GUAMI is of type G, and a PLMN identity is its bytes.
pub record Amf (G : Type 0) : Type 0 where
  pub served_guami_list : Option (List G)
  pub plmn_support_list : Option (List Bytes)
  pub ran_ue_list : Map ℕ

pub record N3iwf (S G : Type 0) : Type 0 where
  pub next_pointer : ℕ
  pub ran_ues : Map RanUe
  pub amfs : Map (Amf G)
  pub ike_ues : Map IkeUe
  pub ike_sas : Map IkeSa
  pub ran_ue_ngap_ids : S
  pub teids : S
  pub ipsec_inner_ip_pool : S
  pub amf_pool : Map ℕ
  pub ike_ue_pool : Map ℕ
  pub ran_ue_pool : Map ℕ
  pub ike_spi_to_ngap_id : Map ℕ
  pub ngap_id_to_ike_spi : Map ℕ
  pub allocated_ue_teid : Map ℕ
  pub allocated_ue_ip_address : Map ℕ
  pub ikesa : Map ℕ
  pub child_sa : List ℕ
  pub xfrm_ifaces : Map Link

-- A call that may panic. It returns no errors of its own.
abbrev pub Go {ℓ} : Type ℓ → Type ℓ
Go A = Outcome (Unit {0}) A

abbrev pub empty_setup_data : SetupData
empty_setup_data = record {
  unactivated = [];
  index = 0;
  is_initial_context_setup = false;
  setup_list_cxt = [];
  failed_list_cxt = [];
  setup_list_su = [];
  failed_list_su = [];
  failed_err_str = [];
}

-- init of a new N3IWFRanUe; AmfUeNgapIdUnspecified is 0xffffffffff.
abbrev pub init : ℕ → RanUe
init ran_ue_ngap_id = record {
  ran_ue_ngap_id = ran_ue_ngap_id;
  amf_ue_ngap_id = 1099511627775;
  ip_addr_v4 = [];
  port_number = 0;
  amf = none;
  pdu_session_list = [];
  setup_data = empty_setup_data;
  rrc_establishment_cause = 0;
  pdu_session_release_list = [];
  ue_ctx_rel_state = false;
  pdu_sess_res_rel_state = false;
  cached_nas = none;
  is_nas_tcp_established = false;
  is_nas_tcp_complete = false;
  tcp_connection = none;
  ambr = none;
  guami = none;
  allowed_nssai = none;
  radio_capability = none;
  core_network_assistance_information = none;
  security_capabilities = none;
  masked_imeisv = none;
  index_to_rfsp = 0;
}

abbrev pub find_pdu_session : ℕ → RanUe → Option PduSession
find_pdu_session id ue = lookup id ue.pdu_session_list

-- CreatePDUSession: none for the error that the session exists.
unfoldable pub create_pdu_session : ℕ → ℕ → RanUe → Option RanUe
create_pdu_session id snssai ue = elim (lookup id ue.pdu_session_list) [
  | some session ↦ none
  | none ↦
      some
        (record ue { pdu_session_list = insert id (new_pdu_session id snssai) ue.pdu_session_list })
]

unfoldable pub delete_pdu_session : ℕ → RanUe → RanUe
delete_pdu_session id ue = record ue { pdu_session_list = delete id ue.pdu_session_list }

module _ {S G : Type 0} where
  -- RanUePoolLoad, with the object that the pointer leads to.
  abbrev pub ran_ue_pool_load : ℕ → N3iwf S G → Option ℕ
  ran_ue_pool_load id w = lookup id w.ran_ue_pool

  -- An assignment through the pointer `p`.
  unfoldable pub assign : ℕ → RanUe → N3iwf S G → N3iwf S G
  assign p ue w = record w { ran_ues = insert p ue w.ran_ues }

  unfoldable pub ike_spi_ngap_id_mapping : ℕ → ℕ → N3iwf S G → N3iwf S G
  ike_spi_ngap_id_mapping spi id w = record w {
    ike_spi_to_ngap_id = insert spi id w.ike_spi_to_ngap_id;
    ngap_id_to_ike_spi = insert id spi w.ngap_id_to_ike_spi;
  }

  abbrev pub ike_spi_load : ℕ → N3iwf S G → Option ℕ
  ike_spi_load id w = lookup id w.ngap_id_to_ike_spi

  abbrev pub ngap_id_load : ℕ → N3iwf S G → Option ℕ
  ngap_id_load spi w = lookup spi w.ike_spi_to_ngap_id

  -- RanUeLoadFromIkeSPI and IkeUeLoadFromNgapId: none for either of their errors.
  unfoldable pub ran_ue_load_from_ike_spi : ℕ → N3iwf S G → Option ℕ
  ran_ue_load_from_ike_spi spi w = elim (ngap_id_load spi w) [
    | none ↦ none
    | some id ↦ ran_ue_pool_load id w
  ]

  unfoldable pub ike_ue_load_from_ngap_id : ℕ → N3iwf S G → Option ℕ
  ike_ue_load_from_ngap_id id w = elim (ike_spi_load id w) [
    | none ↦ none
    | some spi ↦ lookup spi w.ike_ue_pool
  ]

  -- NewN3iwfIkeUe: the pointer to a new object.
  unfoldable pub new_n3iwf_ike_ue : ℕ → N3iwf S G → ℕ × N3iwf S G
  new_n3iwf_ike_ue spi w = (
    w.next_pointer,
    record w {
      next_pointer = w.next_pointer + 1;
      ike_ues = insert w.next_pointer empty_ike_ue w.ike_ues;
      ike_ue_pool = insert spi w.next_pointer w.ike_ue_pool;
    },
  )

  unfoldable pub delete_ran_ue : ℕ → N3iwf S G → N3iwf S G
  delete_ran_ue id w = record w {
    ran_ue_pool = delete id w.ran_ue_pool;
    ngap_id_to_ike_spi = delete id w.ngap_id_to_ike_spi;
  }

  unfoldable pub delete_ike_ue : ℕ → N3iwf S G → N3iwf S G
  delete_ike_ue spi w = record w {
    ike_ue_pool = delete spi w.ike_ue_pool;
    ike_spi_to_ngap_id = delete spi w.ike_spi_to_ngap_id;
  }

module _ {S G : Type 0} (ids : IdGenerator S) where
  -- NewN3iwfRanUe: the pointer, or nil.
  unfoldable pub new_n3iwf_ran_ue : N3iwf S G → Option ℕ × N3iwf S G
  new_n3iwf_ran_ue w = elim (ids.allocate w.ran_ue_ngap_ids) [
    | none ↦ (none, w)
    | some (id, s) ↦ (
      some w.next_pointer,
      record w {
        next_pointer = w.next_pointer + 1;
        ran_ues = insert w.next_pointer (init id) w.ran_ues;
        ran_ue_ngap_ids = s;
        ran_ue_pool = insert id w.next_pointer w.ran_ue_pool;
      },
    )
  ]

  -- NewTEID for the UE at `p`: 0 when there is no ID, or none in the range of a uint32.
  unfoldable pub new_teid : ℕ → N3iwf S G → ℕ × N3iwf S G
  new_teid p w = elim (ids.allocate w.teids) [
    | none ↦ (0, w)
    | some (teid, s) ↦
        if ltb 4294967295 teid
        then (0, record w { teids = s })
        else (teid, record w { teids = s; allocated_ue_teid = insert teid p w.allocated_ue_teid })
  ]

  unfoldable pub delete_teid : ℕ → N3iwf S G → N3iwf S G
  delete_teid teid w = record w {
    teids = ids.free_id teid w.teids;
    allocated_ue_teid = delete teid w.allocated_ue_teid;
  }

  -- The loop of Remove over the PDU sessions. A session without GTPConnInfo panics.
  pub delete_teids : Map PduSession → N3iwf S G → Go (N3iwf S G)
  unfolding delete_teid
  delete_teids [] w = ok w
  delete_teids ((id, session) ∷ sessions) w = elim session.gtp_conn_info [
    | none ↦ panic
    | some info ↦ delete_teids sessions (delete_teid info.incoming_teid w)
  ]

  -- DetachAMF for the UE `ue`: its AMF forgets it. The UE keeps the pointer.
  unfoldable pub detach_amf : RanUe → N3iwf S G → Go (N3iwf S G)
  detach_amf ue w = elim ue.amf [
    | none ↦ ok w
    | some a ↦ do
      amf ← or_panic (lookup a w.amfs)
      ok (record w {
        amfs =
            insert a (record amf { ran_ue_list = delete ue.ran_ue_ngap_id amf.ran_ue_list }) w.amfs;
      })
  ]

  -- Remove. An error of closing the TCP connection is only logged by the callers.
  pub remove : RanUe → N3iwf S G → Go (N3iwf S G)
  unfolding detach_amf delete_ran_ue
  remove ue w = do
    w ← detach_amf ue w
    delete_teids ue.pdu_session_list (delete_ran_ue ue.ran_ue_ngap_id w)
