-- ===== src/Ike.antt =====
-- The IKE server, in internal/ike. The child module Proposal models the choice among proposals.
pub mod Proposal
pub mod Nat
pub mod Delete
pub mod Request
pub mod Server
pub mod Xfrm
pub mod Exchange
pub mod Established
pub mod Auth
pub mod Eap
mod Tests
