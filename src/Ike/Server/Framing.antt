-- ===== src/Ike/Server/Framing.antt =====
-- The framing on the two ports.
use n3iwf.Prelude.{ℕ, ◌≡◌, ◌≤◌, Bool, [], some, inl, inr, length, ◌==◌, arith, Bool-cases}
use n3iwf.Prelude.Bytes.{Bytes, bytes_equal}
use n3iwf.Ike.Nat.{handle_natt_msg}
use n3iwf.Ike.Server.{send_ike_message_to_ue, receive}

-- A message of a header's length at least that SendIKEMessageToUE writes on a port: the receiver of a
-- peer on a port with the same number takes the same message out, and hands nothing to the handler of
-- ESP packets.
pub receive-send :
    (esp : Bytes → Bool) (header_len port : ℕ) (pkt : Bytes)
    → header_len ≤ length pkt
    → receive esp header_len port (send_ike_message_to_ue port pkt) ≡ ([], some pkt)
unfolding receive send_ike_message_to_ue handle_natt_msg bytes_equal
receive-send esp n port pkt h = elim (Bool-cases (port == 4500)) [
  | inl b ↦ rw b (ground arith)
  | inr b ↦ rw b (ground arith)
]
