-- ===== src/Gtp/Qos.antt =====
-- The QoS parameters that Unmarshal finds.
use n3iwf.Prelude.{
  ap, sym, ◌∙◌, ◌++◌, ℕ, ◌/◌, ◌%◌, ◌^◌, ◌<◌, ◌≤◌, ◌≡◌, refl, Bool, true, false, List, [], ◌∷◌, some,
  none, length, ◌==◌, All, get_elem?, Option, bit_and, arith, if◌then◌else◌,
}
use mathlib.Core.Path.{subst}
use n3iwf.Prelude.Bytes.{Bytes, IsByte, bit_and_6bits, agree_below, agree_below→eq}
use n3iwf.Prelude.Outcome.{Outcome, ok, err, panic, ◌>>=◌}
use n3iwf.Gtp.{
  ExtensionHeader, Tpdu, QosTpduPacket, Error, no_container, fresh, read_extension_header,
  read_extension_headers, unmarshal, ul_header, Header, get_qos_parameters,
}

-- The second byte of the last session container with two bytes of content or more.
abbrev later : Option ℕ → Option ℕ → Option ℕ
later (some b) first = some b
later none first = first

abbrev pub last_info : ℕ → List ExtensionHeader → Option ℕ
last_info sc [] = none
last_info sc (eh ∷ ehs) =
    later (last_info sc ehs) (if eh.type == sc then get_elem? eh.content 1 else none)

-- The packet with the QoS parameters of such a byte: bits 0 to 5 and bit 6.
abbrev pub with_info : QosTpduPacket → Option ℕ → QosTpduPacket
with_info p none = p
with_info p (some b) = record p { qos = true; rqi = b / 64 % 2 == 1; qfi = b % 64 }

-- A session container holds two bytes at least, as TS 38.415 has it.
abbrev pub IsWellFormed : ℕ → ExtensionHeader → Type 0
IsWellFormed sc eh = All IsByte eh.content × (eh.type ≡ sc → 2 ≤ length eh.content)

info_rqi : (b : ℕ) → b < 256 → bit_and (b / 2 ^ 6) 0x1 ≡ b / 64 % 2
unfolding agree_below
info_rqi = agree_below→eq _ _ 256 refl

read_fields :
    (sc : ℕ) (p : QosTpduPacket) (ty nx : ℕ) (c : Bytes)
    → IsWellFormed sc (record { type = ty; content = c; next_type = nx })
    → read_extension_header sc p (record { type = ty; content = c; next_type = nx })
      ≡ ok (with_info p (if ty == sc then get_elem? c 1 else none))
unfolding read_extension_header
read_fields sc p ty nx [] w = ground arith
read_fields sc p ty nx (a ∷ []) w = ground arith
read_fields sc p ty nx (a ∷ b ∷ c) w = ground (arith, bit_and_6bits b w.0.1.0, info_rqi b w.0.1.0)

with_info-with_info :
    (p : QosTpduPacket) (first rest : Option ℕ)
    → with_info (with_info p first) rest ≡ with_info p (later rest first)
with_info-with_info p none none = refl
with_info-with_info p (some a) none = refl
with_info-with_info p none (some b) = refl
with_info-with_info p (some a) (some b) = refl

read_extension_headers-last :
    (sc : ℕ) (p : QosTpduPacket) (ehs : List ExtensionHeader)
    → All (IsWellFormed sc) ehs
    → read_extension_headers sc p ehs ≡ ok (with_info p (last_info sc ehs))
unfolding read_extension_headers
read_extension_headers-last sc p [] w = refl
read_extension_headers-last sc p (eh ∷ ehs) w =
    let first = (if eh.type == sc then get_elem? eh.content 1 else none) in
    rw (read_fields sc p eh.type eh.next_type eh.content w.0) (
      read_extension_headers-last sc (with_info p first) ehs w.1
      ∙ ap ok (with_info-with_info p first (last_info sc ehs)))

abbrev pub found : QosTpduPacket → Option ℕ → Outcome Error QosTpduPacket
found p none = err no_container
found p (some b) = ok (with_info p (some b))

-- With well-formed headers Unmarshal does not panic. A T-PDU without extension headers is taken as
-- it is. Otherwise the last session container decides: its second byte gives the QFI (six bits) and
-- the RQI (bit 6), and without any such container the packet is refused.
pub unmarshal-last_info :
    (sc : ℕ) (pdu : Tpdu)
    → All (IsWellFormed sc) pdu.extension_headers
    → unmarshal sc pdu ≡ (
        if pdu.has_extension_header
        then found (fresh pdu) (last_info sc pdu.extension_headers)
        else ok (fresh pdu))
unfolding unmarshal
unmarshal-last_info sc pdu w =
    rw (read_extension_headers-last sc (fresh pdu) pdu.extension_headers w) (ground arith)

read_short_content :
    (sc : ℕ) (p : QosTpduPacket) (ty nx : ℕ) (c : Bytes)
    → ty ≡ sc
    → length c < 2
    → read_extension_header sc p (record { type = ty; content = c; next_type = nx }) ≡ panic
unfolding read_extension_header
read_short_content sc p ty nx [] e h = ground arith
read_short_content sc p ty nx (a ∷ []) e h = ground arith
read_short_content sc p ty nx (a ∷ b ∷ c) e h = absurd (omega arith)

read_extension_headers-panic :
    (sc : ℕ) (p : QosTpduPacket) (eh : ExtensionHeader) (before after : List ExtensionHeader)
    → All (IsWellFormed sc) before
    → eh.type ≡ sc
    → length eh.content < 2
    → read_extension_headers sc p (before ++ eh ∷ after) ≡ panic
unfolding read_extension_headers
read_extension_headers-panic sc p eh [] after w ty short =
    rw (read_short_content sc p eh.type eh.next_type eh.content ty short)
read_extension_headers-panic sc p eh (h ∷ before) after w ty short =
    rw (read_fields sc p h.type h.next_type h.content w.0) (
      read_extension_headers-panic sc
        (with_info p (if h.type == sc then get_elem? h.content 1 else none)) eh before after w.1 ty
        short)

-- A session container with less than two bytes of content, behind well-formed headers, makes
-- Unmarshal index the content out of range and panic.
pub unmarshal_short_content :
    (sc : ℕ) (pdu : Tpdu) (eh : ExtensionHeader) (before after : List ExtensionHeader)
    → pdu.has_extension_header ≡ true
    → pdu.extension_headers ≡ before ++ eh ∷ after
    → All (IsWellFormed sc) before
    → eh.type ≡ sc
    → length eh.content < 2
    → unmarshal sc pdu ≡ panic
unfolding unmarshal
unmarshal_short_content sc pdu eh before after has split w ty short =
    let panics : read_extension_headers sc (fresh pdu) pdu.extension_headers ≡ panic =
      subst (λ hs. read_extension_headers sc (fresh pdu) hs ≡ panic) (sym split)
        (read_extension_headers-panic sc (fresh pdu) eh before after w ty short) in
    ground arith

-- The T-PDU that carries such a header.
abbrev pub received : Header → Tpdu
received h = record {
  teid = h.teid;
  payload = h.payload;
  has_extension_header = true;
  extension_headers = h.extension_headers;
}

-- What the uplink writes, the downlink parser of the other end reads: a QFI below 64 comes back,
-- with the RQI clear.
pub unmarshal-ul_header :
    (sc no_more teid qfi : ℕ) (payload : Bytes)
    → qfi < 64
    → ◌≡◌ {A = Outcome Error (ℕ × Bool)}
        (unmarshal sc (received (ul_header sc no_more teid qfi payload)) >>= λ p.
          ok (get_qos_parameters p))
        (ok (qfi, false))
unfolding unmarshal ul_header get_qos_parameters
unmarshal-ul_header sc no_more teid qfi payload h =
    ground (arith, bit_and_6bits qfi (omega arith), info_rqi qfi (omega arith))
