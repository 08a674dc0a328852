-- ===== src/Lib.antt =====
-- The evidence chain of the ancre gateway: what is hashed, how events are chained, verified and
-- attested.
--
-- The gateway emits an event per request. The ingester gives it a sequence number and the hash of
-- the event before it, and stamps the hash of its contents on it. The control plane signs a
-- checkpoint over the Merkle root of a range of such hashes. The offline verifier recomputes all of
-- it. The crates stand under crates/.
--
--   * Prelude: what the other modules share. Text is a list of bytes, `Result` is Rust's, `u64_mod`
--     is 2^64: sums of `u64` are taken modulo it, as a release build does.
--   * Canon.Hash, Canon.Tree, Canon.Hex: crates/ancre-canon/src/hash.rs. A digest is a record of its
--     bytes, and the hash function (blake3 or sha2) is the record `Digest`. `tree_root`,
--     `tree_proof` and `root_from_proof` recur on a half of the leaves with the number of leaves as
--     fuel; Canon.Tree.Unfold shows that more fuel changes nothing. Statements about a hash that
--     depend on its strength end in `⊎ Collision d`: two inputs with one digest are then given.
--   * Canon.Cbor: crates/ancre-canon/src/lib.rs. ciborium's reader and writer are the record
--     `Ciborium`, its order of keys is `KeyOrder`, and the serde conversion of a type is an argument.
--     `ReadsBack` says that reading gives back what was written.
--   * Types: crates/ancre-types/src/event.rs, pins.rs and risk.rs. Types.Event.Body is the body of an
--     event that is hashed, field by field.
--   * Chain: crates/ancre-chain/src/lib.rs (`event_hash`, `seal`), Chain.Verify: verify.rs,
--     Chain.Checkpoint: checkpoint.rs. Signing with ed25519 is the record `Ed25519`.
--   * Ingester.Writer: crates/ancre-ingester/src/chain_writer.rs. A method returns the changed writer
--     beside its result; `seen` is an association list and `seen_order` a list, oldest first.
--     Ingester.Writer.History has the runs of a writer as a step relation, `Written`.
--   * Ingester.Sink, Ingester.Pipeline: crates/ancre-ingester/src/sink.rs and pipeline.rs. A store is the
--     record `EventStore`, whose calls take and return its state and may fail; `Keeps` is what the
--     documentation of the trait promises. `ingest` chains the events of a batch, inserts them with
--     retries and rewinds the writers when the store refuses them. The rounds of `insert_with_retry` are
--     the number of attempts of the policy.
--   * Provider.Sse: crates/ancre-provider/src/sse.rs. A call of `on_frame` is a frame in a list. The loops
--     of `feed` recur on the length of the buffer, which every frame makes shorter.
--   * Provider: crates/ancre-provider/src/lib.rs, openai.rs and anthropic.rs. Reading JSON is an argument
--     that gives the fields the source names.
--   * Control.Checkpointer: crates/ancre-control/src/checkpointer.rs. The chain and the store of
--     checkpoints are the records `ChainSource` and `CheckpointStore` over a state; `Attests` is what the
--     stores of the crate do for a single writer, the one over Postgres with its conflicts included;
--     Control.Checkpointer.Memory has the stores of the testing module.
--     Control.Checkpointer.Rounds has the ways in which a round of `tick` ends.
--   * Gateway.Telemetry: crates/ancre-gateway/src/telemetry.rs. The channel and the bus are the records
--     `Channel` and `EventSink`. `recover` is two steps, before and after the answer of the bus, and
--     Gateway.Telemetry.Runs has the runs of a node as a step relation, `Run`, in which other tasks
--     emit at any point. It runs over any bus wrapped by `recording`, which logs the batches that
--     the bus acknowledged.
--   * Gateway.Tap: crates/ancre-gateway/src/tap.rs. The events of a body are a list, and what the inner
--     body answers to a poll is the data type `Polled`.
--   * Gateway.ConfigFeed: crates/ancre-gateway/src/config_feed.rs, over the resolver. The control plane
--     is the record `SnapshotSource`; `none` is a panic.
--   * Pack: crates/ancre-verify/src/pack.rs (`attest`, `attest_one`, `attested_runs`) and the exit
--     codes of main.rs. The text of a violation is the data that it prints.
--   * Config: crates/ancre-types/src/config.rs. A `HashMap` is an association list, the clock at the
--     build of a snapshot is an argument.
--   * Resolver: crates/ancre-resolver/src/lib.rs and staleness.rs, Resolver.Diff: diff.rs. `resolve` is
--     a function of the loaded snapshot and of the local clock; `none` is a panic.
--   * Examples: concrete parameters (a toy hash and a toy CBOR writer with its reader), and the
--     theorems applied to concrete inputs.
--
-- Not modelled: the serde visitors and Display texts (printing), NATS, ClickHouse, Postgres and HTTP
-- (I/O), the dashboard, and the parts of the other crates that the manifest lists as planned.
pub mod Prelude
pub mod Canon
pub mod Types
pub mod Config
pub mod Chain
pub mod Resolver
pub mod Ingester
pub mod Examples
pub mod Control
pub mod Gateway
pub mod Pack
pub mod Provider
