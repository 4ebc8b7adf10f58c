-- ===== src/History.antt =====
-- src/historyinspector/history_inspector.cpp: balances and the wallet's history, computed from the
-- transactions.
mod Analysis
mod Methods
pub mod Balance
pub mod Impact
pub mod Rows
pub mod Unspent
pub mod Items
pub mod Served
pub mod Totals
pub mod Agreement
mod Tests
mod ServedTests
unfoldable pub use Analysis.*
unfoldable pub use Methods.*
