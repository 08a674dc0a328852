-- ===== src/Canon.antt =====
-- crates/ancre-canon: content hashing, the Merkle tree over event hashes, hex, and the canonical
-- form of a CBOR value graph.
pub mod Hash
pub mod Tree
pub mod Hex
pub mod Cbor
