-- ===== src/Ike/Server.antt =====
-- The way of a datagram through the IKE server: the receiver and checkIKEMessage of
-- internal/ike/server.go, Dispatch and hasExpectedMessageID of internal/ike/dispatcher.go, and the
-- framing of SendIKEMessageToUE in internal/ike/send.go.
--
-- Package ike is a parameter: reading headers, decryption with the keys of an IKE SA, and its numbers.
-- P is the type of the payloads. The handlers that Dispatch calls are not modelled here: the result is
-- which one is called, and with what. Whether a reply goes out makes no difference to checkIKEMessage,
-- which returns an error either way.
pub mod Framing
pub mod Served
use n3iwf.Prelude.{
  ℕ, Bool, true, false, List, [], ◌∷◌, ◌++◌, Option, none, some, ltb, ◌==◌, length, if◌then◌else◌,
}
use n3iwf.Prelude.Bytes.{Bytes}
use n3iwf.Prelude.Map.{lookup}
use n3iwf.Prelude.Outcome.{Outcome, ok, err, panic, out_of_fuel, ◌>>=◌, or_panic}
use n3iwf.Sa.{IkeSa}
use n3iwf.Context.{N3iwf, Go}
use n3iwf.Ike.Nat.{NattError, handle_natt_msg}

pub record Header : Type 0 where
  pub initiator_spi : ℕ
  pub responder_spi : ℕ
  pub major_version : ℕ
  pub exchange_type : ℕ
  pub message_id : ℕ
  pub is_response : Bool

pub record IkeMessage (P : Type 0) : Type 0 where
  pub header : Header
  pub payloads : P

-- ParseHeader, DecodeDecrypt with the keys of the IKE SA at a pointer or none, the exchange types, and
-- IKE_HEADER_LEN.
pub record IkePackage (P : Type 0) : Type 0 where
  pub parse_header : Bytes → Option Header
  pub decode_decrypt : Bytes → Header → Option ℕ → Option (IkeMessage P)
  pub ike_sa_init : ℕ
  pub ike_auth : ℕ
  pub create_child_sa : ℕ
  pub informational : ℕ
  pub ike_header_len : ℕ

-- The notifications outside of an IKE SA: both SPIs and the message ID.
pub data Reply : Type 0 where
  invalid_major_version invalid_ike_spi : ℕ → ℕ → ℕ → Reply

-- The handlers that Dispatch calls. HandleIKESAINIT has the bytes of the message too, and the others
-- the pointer to the IKE SA, or nil.
pub data Call (P : Type 0) : Type 0 where
  handle_ike_sa_init : IkeMessage P → Bytes → Call P
  handle_ike_auth handle_create_child_sa handle_informational : IkeMessage P → Option ℕ → Call P

-- What SendIKEMessageToUE writes for an encoded message on a local port.
unfoldable pub send_ike_message_to_ue : ℕ → Bytes → Bytes
send_ike_message_to_ue port pkt = if port == 4500 then 0 ∷ 0 ∷ 0 ∷ 0 ∷ pkt else pkt

-- The message of the receiver, if it is long enough.
abbrev long_enough : ℕ → Option Bytes → Option Bytes
long_enough n none = none
long_enough n (some msg) = if ltb (length msg) n then none else some msg

abbrev natt_result : Outcome NattError (Option Bytes) → Option Bytes
natt_result (ok msg) = msg
natt_result (err e) = none
natt_result panic = none
natt_result out_of_fuel = none

-- One round of the receiver on a local port: what goes to the ESP handler, and the message for the
-- server, if there is one.
unfoldable pub receive : (Bytes → Bool) → ℕ → ℕ → Bytes → List Bytes × Option Bytes
receive esp header_len port msg =
    let natt = handle_natt_msg esp msg in
    if port == 4500
    then (natt.0, long_enough header_len (natt_result natt.1))
    else ([], long_enough header_len (some msg))

-- hasExpectedMessageID
unfoldable pub has_expected_message_id : Header → IkeSa → Bool
has_expected_message_id h sa =
    if h.is_response
    then h.message_id == sa.responder_message_id
    else h.message_id == sa.initiator_message_id

module _ {P : Type 0} (ike : IkePackage P) where
  -- The switch of Dispatch.
  switch : IkeMessage P → Bytes → Option ℕ → Option (Call P)
  switch m msg sa =
      let type = m.header.exchange_type in
      if type == ike.ike_sa_init
      then some (handle_ike_sa_init m msg)
      else if type == ike.ike_auth
      then some (handle_ike_auth m sa)
      else if type == ike.create_child_sa
      then some (handle_create_child_sa m sa)
      else if type == ike.informational
      then some (handle_informational m sa)
      else none

  module _ {S G : Type 0} (w : N3iwf S G) where
    -- With an expected message ID, or not.
    expected : IkeMessage P → Bytes → ℕ → Bool → Option (Call P)
    unfolding switch
    expected m msg a true = switch m msg (some a)
    expected m msg a false = none

    -- In an IKE_SA_INIT exchange the message ID is not looked at.
    in_exchange : IkeMessage P → Bytes → ℕ → Bool → Go (Option (Call P))
    unfolding expected has_expected_message_id
    in_exchange m msg a true = ok (switch m msg (some a))
    in_exchange m msg a false = do
      sa ← or_panic (lookup a w.ike_sas)
      ok (expected m msg a (has_expected_message_id m.header sa))

    unfoldable pub dispatch : IkeMessage P → Bytes → Option ℕ → Go (Option (Call P))
    unfolding in_exchange
    dispatch m msg none = ok (switch m msg none)
    dispatch m msg (some a) = in_exchange m msg a (m.header.exchange_type == ike.ike_sa_init)

    -- The message with its IKE SA, or an error.
    decoded : Option (IkeMessage P) → Option ℕ → List Reply × Option (IkeMessage P × Option ℕ)
    decoded none sa = ([], none)
    decoded (some m) sa = ([], some (m, sa))

    with_sa : Bytes → Header → Option ℕ → List Reply × Option (IkeMessage P × Option ℕ)
    unfolding decoded
    with_sa msg h none = (invalid_ike_spi h.initiator_spi h.responder_spi h.message_id ∷ [], none)
    with_sa msg h (some a) = decoded (ike.decode_decrypt msg h (some a)) (some a)

    with_header : Bytes → Option Header → List Reply × Option (IkeMessage P × Option ℕ)
    unfolding with_sa
    with_header msg none = ([], none)
    with_header msg (some h) =
        if ltb 2 h.major_version
        then (invalid_major_version h.initiator_spi h.responder_spi h.message_id ∷ [], none)
        else if h.exchange_type == ike.ike_sa_init
        then decoded (ike.decode_decrypt msg h none) none
        else with_sa msg h (lookup h.responder_spi w.ikesa)

    unfoldable pub check_ike_message : Bytes → List Reply × Option (IkeMessage P × Option ℕ)
    unfolding with_header
    check_ike_message msg = with_header msg (ike.parse_header msg)

    checked :
        Bytes → List Reply × Option (IkeMessage P × Option ℕ) → Go (List Reply × Option (Call P))
    unfolding dispatch
    checked msg (replies, none) = ok (replies, none)
    checked msg (replies, some (m, sa)) = dispatch m msg sa >>= λ call. ok (replies, call)

    -- One round of the server for a message.
    unfoldable pub serve : Bytes → Go (List Reply × Option (Call P))
    unfolding checked check_ike_message
    serve msg = checked msg (check_ike_message msg)
