-- ===== src/Gre.antt =====
-- internal/gre/message.go: the GRE header around user data between the UE and the N3IWF.
-- A byte slice is a list of numbers; a uint8, uint16 or uint32 field is a number in its range.
-- Unmarshal writes into its receiver also when it fails, so it returns the receiver and the error.
pub mod Codec
pub mod Qos
mod Tests
use n3iwf.Prelude.{
  ℕ, ◌*◌, ◌/◌, ◌^◌, Bool, true, List, [], ◌∷◌, ◌++◌, Option, none, some, ltb, length, bit_and,
  bit_or, if◌then◌else◌,
}
use n3iwf.Prelude.Bytes.{Bytes, put_uint16, put_uint32, uint16, uint32}

abbrev pub ipv4 : ℕ
ipv4 = 0x0800

pub data Error : Type 0 where
  short_header short_key qfi_range : ℕ → Error

pub record GrePacket : Type 0 where
  pub flags : ℕ
  pub version : ℕ
  pub protocol_type : ℕ
  pub key : ℕ
  pub payload : Bytes

-- `gre.GREPacket{}`
abbrev pub empty : GrePacket
empty = record { flags = 0; version = 0; protocol_type = 0; key = 0; payload = [] }

unfoldable pub marshal : GrePacket → Bytes
marshal p = p.flags ∷ p.version ∷ (put_uint16 p.protocol_type ++ (put_uint32 p.key ++ p.payload))

unfoldable pub get_key_flag : GrePacket → Bool
get_key_flag p = ltb 0 (bit_and p.flags 0x20)

-- From offset 4 on; `n` is the length of the whole packet. The tests on the length are the patterns.
unmarshal_key : GrePacket → ℕ → Bytes → GrePacket × Option Error
unmarshal_key p n (a ∷ b ∷ c ∷ d ∷ rest) =
    (record p { key = uint32 a b c d; payload = p.payload ++ rest }, none)
unmarshal_key p n short = (p, some (short_key n))

unmarshal_tail : GrePacket → ℕ → Bytes → GrePacket × Option Error
unfolding get_key_flag unmarshal_key
unmarshal_tail p n rest =
    if get_key_flag p
    then unmarshal_key p n rest
    else (record p { payload = p.payload ++ rest }, none)

unfoldable pub unmarshal : GrePacket → Bytes → GrePacket × Option Error
unfolding unmarshal_tail
unmarshal p (f ∷ v ∷ a ∷ b ∷ rest) =
    unmarshal_tail (record p { flags = f; version = v; protocol_type = uint16 a b })
      (length (f ∷ v ∷ a ∷ b ∷ rest)) rest
unmarshal p short = (p, some (short_header (length short)))

unfoldable pub set_payload : GrePacket → Bytes → ℕ → GrePacket
set_payload p payload protocol_type = record p { payload = payload; protocol_type = protocol_type }

unfoldable pub get_payload : GrePacket → Bytes × ℕ
get_payload p = (p.payload, p.protocol_type)

set_key_flag : GrePacket → GrePacket
set_key_flag p = record p { flags = bit_or p.flags 0x20 }

set_qfi : GrePacket → ℕ → GrePacket
set_qfi p qfi = record p { key = bit_or p.key (bit_and qfi 0x3f * 2 ^ 24) }

set_rqi : GrePacket → Bool → GrePacket
set_rqi p rqi = if rqi then record p { key = bit_or p.key 0x80 } else p

-- The value, or the error; a nil error is `none`.
unfoldable pub get_qfi : GrePacket → ℕ × Option Error
get_qfi p =
    let value = bit_and (p.key / 2 ^ 24) 0x3f in
    if ltb 255 value then (0, some (qfi_range value)) else (value, none)

unfoldable pub get_rqi : GrePacket → Bool
get_rqi p = ltb 0 (bit_and p.key 0x80)

unfoldable pub set_qos : GrePacket → ℕ → Bool → GrePacket
unfolding set_key_flag set_qfi set_rqi
set_qos p qfi rqi = set_key_flag (set_rqi (set_qfi p qfi) rqi)
