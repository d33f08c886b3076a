-- ===== src/Ike/Nat.antt =====
-- NAT detection and NAT traversal: handleNATDetect, generateNATDetectHash and
-- buildNATDetectNotifPayload of internal/ike/handler.go, and handleNattMsg of internal/ike/server.go.
-- SHA-1 is the parameter `sha1`; its Write documents that it never fails. The handler of ESP packets
-- is `esp`, false for an error. An IPv4 address is its four bytes.
pub mod Detect
use n3iwf.Prelude.{
  ℕ, ◌%◌, ◌^◌, ◌/◌, Bool, true, false, List, [], ◌∷◌, ◌++◌, Option, none, some, ltb, ◌==◌, not,
  length, take, drop, if◌then◌else◌,
}
use n3iwf.Prelude.Bytes.{Bytes, put_uint16, put_uint32, bytes_equal}
use n3iwf.Prelude.Outcome.{Outcome, ok, err}

pub data NattError : Type 0 where
  too_short esp_failed : NattError

-- What is handed to the ESP handler, and the IKE message without its marker (or nil), or an error.
abbrev pub Natt : Type 0
Natt = List Bytes × Outcome NattError (Option Bytes)

unfoldable pub handle_natt_msg : (Bytes → Bool) → Bytes → Natt
unfolding bytes_equal
handle_natt_msg esp msg =
    if bytes_equal msg (255 ∷ [])
    then ([], ok none)
    else if ltb (length msg) 4
    then ([], err too_short)
    else if bytes_equal (take 4 msg) (0 ∷ 0 ∷ 0 ∷ 0 ∷ [])
    then ([], ok (some (drop 4 msg)))
    else if esp msg
    then (msg ∷ [], ok none)
    else (msg ∷ [], err esp_failed)

pub record Address : Type 0 where
  pub a : ℕ
  pub b : ℕ
  pub c : ℕ
  pub d : ℕ
  pub port : ℕ

-- NAT_DETECTION_SOURCE_IP, NAT_DETECTION_DESTINATION_IP, and any other type, with their data.
pub data Notification : Type 0 where
  source_ip destination_ip other_type : Bytes → Notification

abbrev pub put_uint64 : ℕ → Bytes
put_uint64 n = put_uint32 (n / 2 ^ 32) ++ put_uint32 (n % 2 ^ 32)

-- The 22 bytes that are hashed.
abbrev pub natd_data : ℕ → ℕ → Address → Bytes
natd_data initiator responder x =
    put_uint64 initiator
    ++ put_uint64 responder
    ++ (x.a ∷ x.b ∷ x.c ∷ x.d ∷ put_uint16 (x.port % 2 ^ 16))

module _ (sha1 : Bytes → Bytes) where
  pub generate_nat_detect_hash : ℕ → ℕ → Address → Bytes
  generate_nat_detect_hash initiator responder x = sha1 (natd_data initiator responder x)

  -- The loop over the notifications; a flag that is set stays set.
  nat_loop : Bytes → Bytes → Bool × Bool → List Notification → Bool × Bool
  nat_loop src dst flags [] = flags
  nat_loop src dst (ue, n3iwf_) (source_ip h ∷ ns) =
      nat_loop src dst (if bytes_equal h src then ue else true, n3iwf_) ns
  nat_loop src dst (ue, n3iwf_) (destination_ip h ∷ ns) =
      nat_loop src dst (ue, if bytes_equal h dst then n3iwf_ else true) ns
  nat_loop src dst flags (other_type h ∷ ns) = nat_loop src dst flags ns

  -- Whether the UE, and whether the N3IWF, is behind a NAT.
  pub handle_nat_detect : ℕ → ℕ → List Notification → Address → Address → Bool × Bool
  unfolding nat_loop generate_nat_detect_hash
  handle_nat_detect initiator responder notifications ue n3iwf_ =
      nat_loop (generate_nat_detect_hash initiator responder ue)
        (generate_nat_detect_hash initiator responder n3iwf_) (false, false) notifications

  -- The two notifications of the sender at `n3iwf_` to `ue`, behind the payloads so far.
  pub build_nat_detect_notif_payload :
      ℕ → ℕ → List Notification → Address → Address → List Notification
  unfolding generate_nat_detect_hash
  build_nat_detect_notif_payload remote local payload ue n3iwf_ =
      payload
      ++ source_ip (generate_nat_detect_hash remote local n3iwf_)
        ∷ destination_ip (generate_nat_detect_hash remote local ue)
        ∷ []
