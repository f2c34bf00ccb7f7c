-- ===== src/Cet.antt =====
-- packages/core/lib/dlc/CETCalculator.ts: the outcomes of a numeric contract as groups of digit
-- prefixes, one contract execution transaction to a group, and payouts merged over ranges.
pub mod Digits
pub mod Groupings
pub mod Payouts
mod Tests
