-- ===== src/Fixture.antt =====
-- Package fixture: what a fixture file holds and how a block is encoded as guest input.
pub mod Types
pub mod Hex
pub mod Geth
pub mod Convert
pub mod Tx
pub mod Rebuild
pub mod Ssz
pub mod Fork
pub mod Payload
pub mod Live
pub mod Agree
pub mod Binary
pub mod Zkevm
pub mod Load
pub mod Format
