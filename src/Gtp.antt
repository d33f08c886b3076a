-- ===== src/Gtp.antt =====
-- internal/gtp/message/message.go: the PDU session container among the GTP-U extension headers.
-- Of a *gtpMsg.TPDU (a type of the go-gtp package) the model has the parts that the code reads.
-- `session_container` and `no_more` are that package's constants ExtHeaderTypePDUSessionContainer
-- and ExtHeaderTypeNoMoreExtensionHeaders, and `marshal` is its serialisation of a header.
pub mod Qos
mod Tests
use n3iwf.Prelude.{
  ℕ, ◌/◌, ◌%◌, ◌^◌, Bool, true, false, List, [], ◌∷◌, Option, none, some, ◌==◌, bit_and,
  if◌then◌else◌,
}
use n3iwf.Prelude.Bytes.{Bytes}
use n3iwf.Prelude.Outcome.{Outcome, ok, err, panic, out_of_fuel, ◌>>=◌, index, or_fail}

abbrev pub ul_pdu_session_information_type : ℕ
ul_pdu_session_information_type = 0x10

pub record ExtensionHeader : Type 0 where
  pub type : ℕ
  pub content : Bytes
  pub next_type : ℕ

pub record Tpdu : Type 0 where
  pub teid : ℕ
  pub payload : Bytes
  pub has_extension_header : Bool
  pub extension_headers : List ExtensionHeader

pub record QosTpduPacket : Type 0 where
  pub tpdu : Tpdu
  pub qos : Bool
  pub rqi : Bool
  pub qfi : ℕ

pub data Error : Type 0 where
  no_container marshal_failed : Error

-- A packet as newly declared, with the parts that Unmarshal sets first.
abbrev pub fresh : Tpdu → QosTpduPacket
fresh pdu = record { tpdu = pdu; qos = false; rqi = false; qfi = 0 }

unfoldable pub get_qos_parameters : QosTpduPacket → ℕ × Bool
get_qos_parameters p = (p.qfi, p.rqi)

pub record Header : Type 0 where
  pub flags : ℕ
  pub teid : ℕ
  pub sequence : ℕ
  pub payload : Bytes
  pub extension_headers : List ExtensionHeader

module _ (session_container : ℕ) where
  -- One round of `for _, eh := range p.tPDU.ExtensionHeaders`.
  read_extension_header : QosTpduPacket → ExtensionHeader → Outcome Error QosTpduPacket
  read_extension_header p eh =
      if eh.type == session_container
      then (do
        info ← index eh.content 1
        ok (record p {
          qos = true;
          rqi = bit_and (info / 2 ^ 6) 0x1 == 1;
          qfi = bit_and info 0x3f;
        }))
      else ok p

  read_extension_headers : QosTpduPacket → List ExtensionHeader → Outcome Error QosTpduPacket
  read_extension_headers p [] = ok p
  read_extension_headers p (eh ∷ ehs) = do
    p' ← read_extension_header p eh
    read_extension_headers p' ehs

  unmarshal_extension_header : QosTpduPacket → Outcome Error QosTpduPacket
  unfolding read_extension_header read_extension_headers
  unmarshal_extension_header p = do
    p' ← read_extension_headers p p.tpdu.extension_headers
    if p'.qos then ok p' else err no_container

  unfoldable pub unmarshal : Tpdu → Outcome Error QosTpduPacket
  unfolding unmarshal_extension_header
  unmarshal pdu =
      if pdu.has_extension_header then unmarshal_extension_header (fresh pdu) else ok (fresh pdu)

  -- BuildQoSGTPPacket
  unfoldable pub ul_header : ℕ → ℕ → ℕ → Bytes → Header
  ul_header no_more teid qfi payload = record {
    flags = 0x34;
    teid = teid;
    sequence = 0;
    payload = payload;
    extension_headers =
        record {
          type = session_container;
          content = ul_pdu_session_information_type ∷ qfi ∷ [];
          next_type = no_more;
        }
        ∷ [];
  }

  unfoldable pub build_qos_gtp_packet :
      (Header → Option Bytes) → ℕ → ℕ → ℕ → Bytes → Outcome Error Bytes
  unfolding ul_header
  build_qos_gtp_packet marshal no_more teid qfi payload =
      or_fail (marshal (ul_header no_more teid qfi payload)) marshal_failed
