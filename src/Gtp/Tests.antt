-- ===== src/Gtp/Tests.antt =====
-- Concrete T-PDUs of internal/gtp/message/message.go. 133 and 0 are the types of go-gtp.
use n3iwf.Prelude.{◌≡◌, true, [], ◌∷◌, arith, if◌then◌else◌}
use n3iwf.Prelude.Outcome.{ok}
use n3iwf.Gtp.{ExtensionHeader, Tpdu, fresh, unmarshal}
use n3iwf.Gtp.Qos.{last_info, found, unmarshal-last_info}

abbrev dl_header : ExtensionHeader
dl_header = record { type = 133; content = 0 ∷ 73 ∷ []; next_type = 0 }

abbrev short_header : ExtensionHeader
short_header = record { type = 133; content = 0 ∷ []; next_type = 0 }

abbrev dl_pdu : Tpdu
dl_pdu = record {
  teid = 1;
  payload = 69 ∷ [];
  has_extension_header = true;
  extension_headers = dl_header ∷ [];
}

abbrev short_pdu : Tpdu
short_pdu = record {
  teid = 1;
  payload = 69 ∷ [];
  has_extension_header = true;
  extension_headers = dl_header ∷ short_header ∷ [];
}

unmarshal-last_info_example :
    unmarshal 133 dl_pdu
    ≡ (if true then found (fresh dl_pdu) (last_info 133 (dl_header ∷ [])) else ok (fresh dl_pdu))
unmarshal-last_info_example =
    unmarshal-last_info 133 dl_pdu (((omega arith, (omega arith, tt)), λ e. omega arith), tt)
