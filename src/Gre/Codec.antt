-- ===== src/Gre/Codec.antt =====
-- Marshal against Unmarshal.
use n3iwf.Prelude.{ℕ, ◌/◌, ◌%◌, ◌^◌, ◌<◌, ◌≡◌, ◌++◌, none, arith, if◌then◌else◌}
use n3iwf.Prelude.Bytes.{put_uint32, uint16, uint32}
use n3iwf.Gre.{GrePacket, marshal, unmarshal, get_key_flag}

uint16-put_uint16 : (v : ℕ) → v < 2 ^ 16 → uint16 (v / 256 % 256) (v % 256) ≡ v
uint16-put_uint16 v h = omega arith

uint32-put_uint32 :
    (v : ℕ)
    → v < 2 ^ 32
    → uint32 (v / 16777216 % 256) (v / 65536 % 256) (v / 256 % 256) (v % 256) ≡ v
uint32-put_uint32 v h = omega arith

-- The packet that comes out of Unmarshal on the output of Marshal, for a receiver `q`.
abbrev pub reread : GrePacket → GrePacket → GrePacket
reread q p = record q {
  flags = p.flags;
  version = p.version;
  protocol_type = p.protocol_type;
  key = if get_key_flag p then p.key else q.key;
  payload = q.payload ++ (if get_key_flag p then p.payload else put_uint32 p.key ++ p.payload);
}

-- For a packet whose protocol type and key are in range, Unmarshal of what Marshal wrote gives no
-- error. If the key flag is set, flags, version, protocol type and key come back and the payload is
-- appended to the receiver's. If it is not, the receiver keeps its key, and the four key bytes that
-- Marshal writes all the same come back in front of the payload.
pub unmarshal-marshal :
    (q p : GrePacket)
    → p.protocol_type < 2 ^ 16
    → p.key < 2 ^ 32
    → unmarshal q (marshal p) ≡ (reread q p, none)
unfolding unmarshal marshal get_key_flag
unmarshal-marshal q p ht hk =
    ground (arith, uint16-put_uint16 p.protocol_type, uint32-put_uint32 p.key)
