-- ===== src/Tests.antt =====
-- Values on which the theorems are applied, and runs of the code's own tests.
mod Protocol
mod Build
mod Crypto
mod Network
mod Discovery
mod Proto
mod Pool
mod Relay
mod Client
