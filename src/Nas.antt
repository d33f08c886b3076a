-- ===== src/Nas.antt =====
-- internal/nas/nas_security/security.go and serveConn of internal/nwucp/server.go: the NAS message
-- envelope, and the loop that takes envelopes off the TCP connection of a UE.
-- The connection is the list of all bytes that the UE sends before it closes or breaks. That the loop
-- resets the TCPConnection of the UE when it ends is left out. What
-- serveConn does with a message, `go forward(ranUe, fwdNas, wg)`, is a message of the result.
pub mod Framing
mod Tests
use n3iwf.Prelude.{
  ℕ, zero, suc, ◌%◌, ◌^◌, List, [], ◌∷◌, ◌++◌, Option, none, some, ltb, length, take, drop,
  if◌then◌else◌,
}
use n3iwf.Prelude.Bytes.{Bytes, put_uint16, uint16}

-- EncapNasMsgToEnvelope; the length is cut to a uint16.
unfoldable pub encap_nas_msg_to_envelope : Bytes → Bytes
encap_nas_msg_to_envelope nas = put_uint16 (length nas % 2 ^ 16) ++ nas

-- io.ReadFull(connReader, buf[:n]): the bytes and what is left, or an error if too few come.
abbrev pub read_full : ℕ → Bytes → Option (Bytes × Bytes)
read_full n s = if ltb (length s) n then none else some (take n s, drop n s)

-- How serveConn stopped: in the read of a length, in the read of a message, or (of the model) no
-- fuel was left.
pub data Stop : Type 0 where
  no_length no_message fuel_used : Stop

-- The forwarded messages, in the order of their `go` statements, and how the loop stopped.
abbrev pub Served : Type 0
Served = List Bytes × Stop

abbrev forwarded : Bytes → Served → Served
forwarded nas (ms, stop) = (nas ∷ ms, stop)

serve_message : (Bytes → Served) → Bytes → Bytes → Served
serve_message serve (hi ∷ lo ∷ []) s = elim (read_full (uint16 hi lo) s) [
  | none ↦ ([], no_message)
  | some (nas, rest) ↦ forwarded nas (serve rest)
]
serve_message serve _ s = ([], no_length)

unfoldable pub serve_conn : ℕ → Bytes → Served
unfolding serve_message
serve_conn zero s = ([], fuel_used)
serve_conn (suc fuel) s = elim (read_full 2 s) [
  | none ↦ ([], no_length)
  | some (head, rest) ↦ serve_message (λ r. serve_conn fuel r) head rest
]
