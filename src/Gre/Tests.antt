-- ===== src/Gre/Tests.antt =====
-- Concrete packets of internal/gre/message.go.
use n3iwf.Prelude.{◌≡◌, ◌%◌, true, [], ◌∷◌, none, arith}
use n3iwf.Gre.{
  GrePacket, empty, ipv4, marshal, unmarshal, get_qfi, get_rqi, get_key_flag, get_payload,
}
use n3iwf.Gre.Codec.{reread, unmarshal-marshal}
use n3iwf.Gre.Qos.{dl_packet, read_dl}

abbrev keyless : GrePacket
keyless = record { flags = 0; version = 0; protocol_type = 2048; key = 7; payload = 69 ∷ 1 ∷ [] }

unmarshal-marshal_example : unmarshal empty (marshal keyless) ≡ (reread empty keyless, none)
unmarshal-marshal_example = unmarshal-marshal empty keyless (omega arith) (omega arith)

read_dl_example :
    let (p, e) = unmarshal empty (marshal (dl_packet (69 ∷ 0 ∷ []) 9 true)) in
    (e ≡ none)
    × (get_key_flag p ≡ true)
    × (get_qfi p ≡ (9 % 64, none))
    × (get_rqi p ≡ true)
    × (get_payload p ≡ (69 ∷ 0 ∷ [], ipv4))
read_dl_example = read_dl (69 ∷ 0 ∷ []) 9 true (omega arith)
