-- ===== src/Messages.antt =====
-- packages/messaging/lib: the wire formats of the contract messages.
pub mod Codec
pub mod Control
pub mod Signatures
pub mod Inputs
pub mod Payouts
pub mod Transactions
pub mod Tlv
pub mod Tagged
pub mod Oracle
pub mod OracleInfo
pub mod Contract
pub mod Order
pub mod Parties
pub mod Offer
pub mod Tail
pub mod Sign
pub mod Accept
pub mod Text
pub mod Rounds
mod Tests
