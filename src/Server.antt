-- ===== src/Server.antt =====
-- client_backend/internal/server: the parts of the network server that keep state of their own.
pub mod Entry
pub mod PairingLink
pub mod TransferTokens
pub mod Hub
pub mod ConnAuth
pub mod Vault
pub mod Gate
pub mod Unpaired
mod Tests
