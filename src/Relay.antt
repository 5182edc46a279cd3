-- ===== src/Relay.antt =====
-- services/relay-node/src/circuit: what a relay does with the cells of a circuit.
pub mod Utf8
pub mod Context
pub mod Extend
pub mod Entry
pub mod Middle
pub mod Exit
pub mod Handler
pub mod Reader
pub mod Connection
