-- ===== src/Ngap.antt =====
-- The events of the NGAP server: HandleEvent and its handlers in internal/ngap/handler.go.
--
-- A handler takes the state of the gateway (Context) to the next one, with what it sends, in order.
-- A Go panic ends the program here, since runNgapEventHandler turns it into Fatalf. A sent message
-- holds the UE as it is when the message is built; what package ngap/message makes of it is left out,
-- but for whether a PDU session's transfer can be encoded, which the environment says. Metrics and
-- log lines are left out. A UE context that is a RanUe is always an N3IWFRanUe.
pub mod Types
pub mod Keep
pub mod Setup
pub mod Initial
pub mod Handlers
pub mod Message
pub mod Session
pub mod Requests
pub mod Reset
pub mod Amf
pub mod Run
pub mod Tests
