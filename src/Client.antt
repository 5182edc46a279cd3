-- ===== src/Client.antt =====
-- services/tor-client: the client of the network.
pub mod Onion
pub mod Circuit
pub mod Stream
pub mod Builder
pub mod Pool
