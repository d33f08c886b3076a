-- ===== src/Gre/Qos.antt =====
-- SetQoS, the encoding and the readers of the QoS fields, as forwardDL and the peer chain them.
use n3iwf.Prelude.{
  ℕ, ◌*◌, ◌/◌, ◌%◌, ◌^◌, ◌<◌, ◌≡◌, refl, Bool, true, false, none, bit_and, bit_or, arith,
  if◌then◌else◌,
}
use n3iwf.Prelude.Bytes.{Bytes, agree_below, agree_below→eq}
use n3iwf.Gre.{
  GrePacket, empty, ipv4, marshal, unmarshal, set_payload, get_payload, set_qos, get_qfi, get_rqi,
  get_key_flag,
}
use n3iwf.Gre.Codec.{unmarshal-marshal}

-- The key that SetQoS makes out of a zero key.
abbrev key_of : Bool → ℕ → ℕ
key_of rqi q = let k = bit_or 0 (bit_and q 0x3f * 2 ^ 24) in if rqi then bit_or k 0x80 else k

abbrev flag_of : Bool → ℕ
flag_of rqi = if rqi then 128 else 0

key-qfi : (rqi : Bool) (q : ℕ) → q < 256 → bit_and (key_of rqi q / 2 ^ 24) 0x3f ≡ q % 64
unfolding agree_below
key-qfi true = agree_below→eq _ _ 256 refl
key-qfi false = agree_below→eq _ _ 256 refl

key-rqi : (rqi : Bool) (q : ℕ) → q < 256 → bit_and (key_of rqi q) 0x80 ≡ flag_of rqi
unfolding agree_below
key-rqi true = agree_below→eq _ _ 256 refl
key-rqi false = agree_below→eq _ _ 256 refl

key-high : (rqi : Bool) (q : ℕ) → q < 256 → key_of rqi q / 2 ^ 32 ≡ 0
unfolding agree_below
key-high true = agree_below→eq _ _ 256 refl
key-high false = agree_below→eq _ _ 256 refl

key_bound : (rqi : Bool) (q : ℕ) → q < 256 → key_of rqi q < 2 ^ 32
key_bound rqi q h = omega (arith, key-high rqi q h)

-- The downlink packet of forwardDL: a fresh header with the payload and the QoS parameters.
abbrev pub dl_packet : Bytes → ℕ → Bool → GrePacket
dl_packet payload qfi rqi = set_qos (set_payload empty payload ipv4) qfi rqi

-- What the UE reads from the bytes of a packet that was built with SetPayload and SetQoS on a zero
-- header: no error, the key flag, the lower six bits of the QFI, the RQI, and the payload as IPv4.
pub read_dl :
    (payload : Bytes) (qfi : ℕ) (rqi : Bool)
    → qfi < 256
    → let (p, e) = unmarshal empty (marshal (dl_packet payload qfi rqi)) in
      (e ≡ none)
      × (get_key_flag p ≡ true)
      × (get_qfi p ≡ (qfi % 64, none))
      × (get_rqi p ≡ rqi)
      × (get_payload p ≡ (payload, ipv4))
unfolding set_qos set_payload get_qfi get_rqi get_key_flag get_payload
read_dl payload qfi true h =
    rw (unmarshal-marshal empty (dl_packet payload qfi true) (omega arith) (key_bound true qfi h))
      (ground (arith, key-qfi true qfi h, key-rqi true qfi h))
read_dl payload qfi false h =
    rw (unmarshal-marshal empty (dl_packet payload qfi false) (omega arith) (key_bound false qfi h))
      (ground (arith, key-qfi false qfi h, key-rqi false qfi h))
