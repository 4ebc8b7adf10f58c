-- ===== src/WalletState.antt =====
-- src/walletstate/wallet_state.cpp: the addresses, the caches of what the Electrum server said,
-- and the queues towards the user interface. `W` is the server's world; client() of
-- XElectrumInterface is the interface itself.
mod Defs
mod Methods
pub mod Cache
pub mod Histories
pub mod Sorting
pub mod Coherent
pub mod Unmarked
pub mod Listing
pub mod Loaded
pub mod Stored
pub mod InBulk
mod ListTests
mod Tests
unfoldable pub use Defs.*
unfoldable pub use Methods.*
