-- ===== src/Tests.antt =====
-- Small inputs on which the theorems are applied, and runs of the definitions.
pub mod Values
pub mod Forms
pub mod Records
pub mod Pages
pub mod Filings
pub mod Streams
pub mod Chains
pub mod Views
