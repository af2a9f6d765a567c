-- ===== src/Tests.antt =====
-- Concrete inputs for the theorems of each part.
pub mod Codecs
pub mod Parts
pub mod Groups
pub mod Cooks
pub mod Descriptors
pub mod Conversations
pub mod Sends
pub mod Clients
pub mod Sums
pub mod Addresses
pub mod Servers
pub mod Commands
