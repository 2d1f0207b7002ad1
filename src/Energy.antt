-- ===== src/Energy.antt =====
-- common/msap1/meter: energy and demand records, from the measurement records to the ledger.
pub mod Values
pub mod Record
pub mod Family
pub mod Assembler
pub mod Columns
pub mod Rows
pub mod Sums
pub mod Ledger
mod Examples
