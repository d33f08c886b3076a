-- ===== src/Lib.antt =====
-- N3IWF: the gateway between untrusted WiFi and a 5G core.
--
-- A UE opens an IKE security association with the gateway (internal/ike), in which EAP-5G packets
-- carry NAS messages and AN-parameters. The IKE server passes them as events to the NGAP server
-- (internal/ngap), which reads them, selects an AMF, and keeps a RAN UE for it in the shared context
-- (internal/context). When the tunnel stands, NAS messages come over a TCP connection in envelopes
-- (internal/nwucp), and the user plane goes over GRE to the UE and over GTP-U to the core
-- (internal/nwuup, with internal/gre and internal/gtp).
--
-- Files, and the code that each models:
--   Prelude      shared: lists and tests over native numbers, bytes, maps, and `Outcome`: a Go call
--                returns a value or an error, or panics, or (of a model with fuel) has no fuel left
--   Gre          internal/gre/message.go: Marshal, Unmarshal, SetQoS and the getters
--   Gtp          internal/gtp/message/message.go: QoSTPDUPacket.Unmarshal, BuildQoSGTPPacket
--   Nas          internal/nas/nas_security/security.go: EncapNasMsgToEnvelope;
--                internal/nwucp/server.go: the loop of serveConn
--   Eap5g        internal/ngap/eap5g.go: UnmarshalEAP5GData
--   Ike/Proposal internal/ike/handler.go: SelectProposal, isTransformKernelSupported, and the choice
--                of the ESP proposal in HandleIKEAUTH
--   Ike/Xfrm     internal/ike/xfrm/xfrm.go: ApplyXFRMRule; internal/ike/handler.go:
--                parseIPAddressInformationToChildSecurityAssociation
--   Ike/Exchange, Ike/Auth, Ike/Established  internal/ike/handler.go: HandleIKEAUTH, with its payloads
--                and responses, its first two states, and its last one
--   Ike/Eap      internal/ike/handler.go: HandleUnmarshalEAP5GDataResponse,
--                HandleSendEAP5GFailureMsg, HandleSendEAPSuccessMsg, HandleSendEAPNASMsg and
--                HandleIKEContextUpdate
--   Ike/Nat      internal/ike/handler.go: handleNATDetect, generateNATDetectHash and
--                buildNATDetectNotifPayload; internal/ike/server.go: handleNattMsg
--   Ike/Delete   internal/ike/handler.go: deleteChildSAFromSPIList and handleDeletePayload
--   Ike/Request  internal/ike/send.go: SendUEInformationExchange, SendIKEDeleteRequest and
--                SendChildSADeleteRequest; internal/ike/handler.go: HandleIKEDeleteEvt, removeIkeUe and
--                HandleSendChildSADeleteRequest
--   Ike/Server   the way of a datagram: receiver, server and checkIKEMessage of internal/ike/server.go,
--                Dispatch and hasExpectedMessageID of internal/ike/dispatcher.go, and the framing of
--                SendIKEMessageToUE in internal/ike/send.go
--   Context      internal/context/context.go, amf.go, ranue.go, n3iwf_ue.go: the pools, the map from
--                SPIs to RAN UE NGAP IDs, TEIDs, AMFSelection, and Remove of a RAN UE
--                its children Children and Allocate: internal/context/ikeue.go with Remove of an IKE
--                UE, and the allocation of SPIs and inner addresses
--   Sa           internal/context/ikeue.go: the IKE UE, its IKE SA and its child SAs, as data
--   Events       internal/context/ngap.go and ike.go: the events between the servers
--   Ngap         internal/ngap/handler.go, from HandleEvent on: the handlers of the NGAP events;
--                internal/ngap/server.go: the loop of runNgapEventHandler, on events
--                Ngap/Message and Ngap/Amf: HandleDownlinkNASTransport, HandleUEContextReleaseCommand and
--                HandlePDUSessionResourceReleaseCommand, and the dispatch of
--                internal/ngap/dispatcher.go
--                Ngap/Reset: HandleNGReset, with RemoveAllRelatedUe and FindUeByAmfUeNgapID of
--                internal/context/amf.go
--                Ngap/Session and Ngap/Requests: HandleInitialContextSetupRequest and
--                HandlePDUSessionResourceSetupRequest, with
--                handlePDUSessionResourceSetupRequestTransfer
--   Nwuup        internal/nwuup/server.go: forwardUL, handleQoSTPDU and forwardDL
--   SessionRelease  the command of the AMF to release PDU sessions, through the NGAP server and the IKE
--                server
-- The children of a file hold its theorems, and its Tests the concrete inputs.
--
-- State and errors. Objects that the code shares by pointer (RAN UEs, IKE UEs, IKE SAs and AMFs) lie
-- in a heap of the context, and the pools hold pointers, which are numbers. A handler takes a state to
-- the next one and to the list of what it sends. Handlers run one after the other, as the event loop of the NGAP server
-- runs them; other goroutines that touch the same objects are not modelled. Go maps are association
-- lists. Words of w bits are numbers, with `% 2 ^ w` where the code can wrap.
--
-- Panics. A panic in the model has no state. In the NGAP server it ends the program. Dispatch of
-- internal/ike/dispatcher.go recovers from one, and the IKE server goes on with what the handler has
-- written up to there: a theorem on the result of a handler of IKE messages, if there is one, says
-- nothing of this case.
--
-- Fuel. The loops of UnmarshalEAP5GData and of serveConn take fuel. More fuel than bytes is enough for
-- serveConn, and for packets without the byte 254; a packet with it may use up any fuel.
-- NewIPsecInnerUEIP takes fuel, and more than the pool has addresses is enough; for
-- NewIKESecurityAssociation the draws of random numbers are a list, and a free SPI in it is enough. The
-- loops of HandleIKEAUTH take such a list too.
--
-- Parameters: netlink, pseudorandom functions, signatures and the generation of keys, address
-- resolution, the pool of inner addresses, random numbers, package aper (decoding and encoding
-- of GUAMIs and PLMN identities), the ID generators, package ike (headers, decryption, its constants),
-- the transform decoders of ike/security, SHA-1, the handler of ESP packets, the T-PDU and the header
-- serialisation of go-gtp, the results of a TCP write, of closing a connection and of SendIKEMessageToUE, and what the transfers
-- of PDU sessions are encoded to and decoded to. Messages from the AMF come as package ngap decodes them.
--
-- Not modelled: sockets, goroutines and channels, cryptography, the XFRM interface
-- (SetupIPsecXfrmi), building of NGAP PDUs, configuration and start-up (pkg), metrics and log lines, since they are calls of
-- libraries or of the system; the handlers of the other messages from the AMF, those of
-- IKE_SA_INIT, CREATE_CHILD_SA (with its events) and INFORMATIONAL, and dead peer detection are left out as well.
mod Prelude
pub mod Gre
pub mod Nas
pub mod Gtp
pub mod Eap5g
pub mod Ike
pub mod Sa
pub mod Context
pub mod Events
pub mod Ngap
pub mod Nwuup
pub mod SessionRelease
