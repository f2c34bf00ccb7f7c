-- ===== src/Funding.antt =====
-- packages/core/lib/dlc: the fees of the funding transactions and the choice of their inputs.
pub mod Finalizer
pub mod CoinSelect
mod Tests
