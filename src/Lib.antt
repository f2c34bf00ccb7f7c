-- ===== src/Lib.antt =====
-- The byte formats and the contract arithmetic of node-dlc, a TypeScript library for discreet log
-- contracts on Bitcoin.
--
-- The program has packages: bufio reads and writes bytes, messaging builds its wire messages on
-- bufio, core computes contract outcomes, payouts and fees, and the remaining packages keep chains,
-- stores and peers. Paths below are from the repository's root.
--
-- Prelude: names shared by all files, lists and tests over native numbers, and `Outcome`, the
--   result of a stateful operation that may throw; an error keeps the state it leaves.
-- Bufio: packages/bufio/lib/BufferReader.ts and BufferWriter.ts. A buffer is a list of bytes, a
--   reader or writer a record with the fields of the class, and a method a run over that record:
--   readBigSize is `read_big_size`, writeBytes is `write_bytes`, and so on. `_expand` is `expand`
--   with the 32-bit shift written out. Node's own Buffer methods, which the class calls, are be and
--   le values of byte lists (Bufio/Bytes). A reader that gives a value and moves over its bytes
--   (Reads), one that only gives it (Finds, Ends) and one that moves on at all (Forward) are
--   predicates of Bufio/Reader.
-- Cet: packages/core/lib/dlc/CETCalculator.ts. decompose, separatePrefix, the groupings and
--   mergePayouts, in the same order and with the same helper loops.
-- Messages: packages/messaging/lib/messages. Each message has a writer and a reader, run on a new
--   BufferWriter and BufferReader as `serialize` and `deserialize` do (`output` and `result`), and
--   its format as bytes. Codec has what they share: counted lists, data writers, look-ahead.
--   Control: DlcCancel, DlcIds, DlcInfo. Signatures: DlcInput, ScriptWitnessV0,
--   CetAdaptorSignatures, FundingSignatures. Inputs: FundingInput. Payouts: RoundingIntervals,
--   PayoutCurvePiece, PayoutFunction; EndPoints is about what they do not write, and Validate about
--   RoundingIntervals with bigints of either sign. Transactions: DlcTransactions. Tlv:
--   packages/messaging/lib/serialize/deserializeTlv.ts and getTlv.ts.
--   Text is a string behind its length, with Node's UTF-8 as the record `Utf8`; Tagged a type, a
--   length and a body; Rounds the loop to the end of a buffer, whose rounds are one more than the
--   bytes, each taking one at least, and the same loop with no count as a relation (`Loops`).
--   Oracle: EventDescriptor, OracleEvent, OracleAnnouncement, whose signature check is the record
--   `Signing`. OracleInfo and Contract: OracleInfo, ContractDescriptor, ContractInfo. Order:
--   OrderMetadata, OrderIrcInfo, OrderPositionInfo, BatchFundingGroup. Offer: DlcOffer, whose
--   optional messages are the record `Extras`. Accept: DlcAccept with NegotiationFields. Sign:
--   DlcSign. Tail is the end that both share, and Parties what validate of offer and acceptance
--   share, with address and key checks as the record `Standards`. A list of messages that was not
--   set is the empty list, which is written in the same way.
-- Bitcoin: Tx.ts of packages/bitcoin/lib with TxIn.ts, TxOut.ts, OutPoint.ts and Witness.ts (Tx), and
--   Script.ts (Script), read from a stream that has ended, packages/bufio/lib/StreamReader.ts
--   (Stream). The rounds given to `read_cmds` are one more than the bytes, each of which is read
--   once. FundingInput and DlcTransactions carry such transactions. Sequence has Sequence.ts and
--   LockTime.ts. The makers of locks (Standard) take key checks and hashes as the record `Hashes`.
-- Funding: packages/core/lib/dlc/TxFinalizer.ts (Finalizer) and CoinSelect.ts (CoinSelect). The
--   loop of dualFundingCoinSelect is `select_from` on the UTXOs that are left; the sort is a stable
--   insertion by descending score.
-- Noise: packages/noise/lib/noise-state.ts over packages/crypto/lib/chachapoly.ts and hkdf.ts
--   (Crypto). NoiseState is the record `Noise`, and each of its methods a run over it (State,
--   Cipher). Node's ciphers and digests and the curve are the record `Primitives`, and what the code
--   relies on of them the record `Laws`; a private key for which the library throws is outside
--   of these. Handshake runs the three acts of two parties against each other,
--   Transport carries a message, and Conversation puts both together; Forgery is
--   about bytes that no party sealed.
-- Collections: packages/core/lib/LinkedListNode.ts, LinkedList.ts and Queue.ts. A node is a cell of
--   a heap (Nodes), a reference an address or null, and a property of null throws. Chain says
--   what a chain of nodes is; Add, and Splice with Remove, follow the methods.
-- Wire: packages/wire/lib/PingPongState.ts (PingPong), with what a run tells the peer (Runs) and what
--   its timers do (Timers). Messages, timers and the end of a connection
--   are events, and what the peer is told is a list of effects; `step` has one clause for each.
--
-- Bounds: the theorems about a growing writer hold up to 2^30 bytes, the last length for which
-- `1 << Math.ceil(Math.log2(n))` is positive. The rounds given to `ceil_log2` are the number
-- itself, which is more than its logarithm. Big integers are naturals: the code refuses or never
-- makes negative ones where they are used here.
--
-- Not modelled: the remaining messages, methods on doubles, payout curves over arbitrary-precision
-- decimals, JSON forms, cryptographic primitives, networking and storage.
pub mod Prelude
pub mod Bufio
pub mod Cet
pub mod Messages
pub mod Funding
pub mod Noise
pub mod Collections
pub mod Bitcoin
pub mod Wire
