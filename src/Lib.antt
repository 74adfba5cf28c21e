-- ===== src/Lib.antt =====
-- RNovModularDB is an embedded SQL database in Rust, in crates. A session of rnmdb-cli runs
-- statements through the parser, binder, planner and executor, and begins and ends transactions
-- with `TransactionManager` of rnmdb-txn. The executor keeps its access paths in the indexes of
-- rnmdb-index and encrypts columns with rnmdb-security. The server hosts isolated instances of
-- rnmdb-instance and authenticates with rnmdb-security. Locks, version chains, access control
-- and audit chains are offered to programs that embed the database. This library models the
-- crates that carry these rules:
--
-- * crates/rnmdb-txn. Txn/Locks is `LockManager`: exclusive locks, the waits-for graph, and the
--   search `has_wait_path` that refuses a request that would deadlock. Txn/Manager is
--   `TransactionManager` with Txn/Snapshot: transactions, their states, and snapshots by
--   isolation level. Txn/Versions is `VersionChain`: the versions of a row and the one that a
--   snapshot sees.
-- * crates/rnmdb-index. Index/Key and Index/Entries hold keys, pointers, and the body that the
--   ordered and hashed indexes share. Index/BTree is `MemoryBTreeIndex` with its range scans,
--   Index/Composite `MemoryCompositeIndex` with skip scans, Index/Summary `BlockSummaryIndex`,
--   Index/Bounds the boxes of `MemoryBoundsIndex`, and Index/Hash is `MemoryHashIndex`.
-- * crates/rnmdb-instance. Instance/Limits are the limits of resources, Instance/Isolation the
--   namespaces and configurations, Instance/Switch the status of an instance between memory and
--   disk and the channels that switch it, Instance/Manager the `InstanceManager`.
-- * crates/rnmdb-security. Security/Access is `AccessControl`, Security/Audit is `AuditChain`,
--   and Security/Envelope the envelope of an encrypted column value with its encryption and
--   decryption.
-- * crates/rnmdb-sql/src/lexer.rs. Sql/Token has the tokens and the table of keywords, Sql/Lexer is
--   `Lexer`, with the classes of bytes in Sql/Bytes.
-- * crates/rnmdb-planner. Planner/Logical is the data type `LogicalPlan`, Planner/Optimizer is
--   `RuleOptimizer`: filters below projections, and marks for parallel reads.
-- * crates/rnmdb-executor. Executor/Vector is `VectorBatch` with its validation, Executor/Select its
--   `project` and `filter_eq`, Executor/SetOps are DISTINCT, UNION, INTERSECT and EXCEPT of
--   src/memory/set_ops.rs, and Executor/Cancellation the token that they check at each row.
-- * crates/rnmdb-storage. Storage/Memory is `MemoryBackend` and Storage/Hybrid `HybridBackend`, which
--   keeps pages in memory and on a disk and switches between them; Storage/Status is what it
--   reports. Storage/Codec is `PageCodec` and `PageCrypto`, the bytes of a page and their encryption,
--   and Storage/SingleFile the pages of `SingleFileBackend`, the disk of the program.
-- * crates/rnmdb-types. Types/Float64 is `SqlFloat64`.
-- * crates/rnmdb-common. Common has the kinds of errors and `Result`.
--
-- Conventions. An operation on `&mut self` takes the state and returns the answer with the new
-- state; one that fails returns the state that it leaves behind, so that a change made before the
-- failure is kept. An error is its kind. `BTreeMap` and `BTreeSet` are lists sorted by key
-- (Collections), in the order that the key type derives (Collections/Order). A text is the list of
-- its bytes, or of its code points where the code looks at characters: in Security/Access, in Sql
-- (where positions still count bytes) and in the modules that hold names of columns. Numbers are
-- natural numbers, and `i64` values are integers (Base/Int). The counters of ids wrap at 2 ^ 64,
-- as in a release build; counts of elements in memory are not wrapped. A panic that the code could
-- meet (`BTreeMap::range` on a reversed range, an index out of range in Executor/Select) is the
-- answer `none`. Calls run one after the other: the managers take `&mut self`, so that a call ends
-- before the next begins.
--
-- Fuel. `has_wait_path` loops until its stack is empty. Each round pops an entry, and each
-- transaction is expanded once, so there are at most as many rounds as edges, and two more;
-- `search` has fuel `edge_count w + 2`. The decimal digits of `n` are taken with fuel `n + 1`, one
-- per digit. Each round of the lexer reads a character, so `lex` has fuel for one round more than
-- there are characters. `optimize_plan` takes its fuel from the caller: the number of nodes of a
-- plan is enough.
--
-- Parameters. SHA-256 is a library call and a parameter of Security/Audit, with no hypothesis on
-- it: a theorem that needs it to be free of collisions offers a collision as its other outcome.
-- ChaCha20-Poly1305 is a parameter of Security/Envelope and Storage/Codec; that it opens what it
-- seals, and nothing else, is a hypothesis of the theorems that need it. CRC-64 is a parameter of
-- Storage/Codec, with 64 bits as its only hypothesis. The reading of an `f64` from text is a
-- parameter of Sql/Lexer. The values that batches hold are the interface Executor/Values: their
-- equality, their types, and the test for NULL. The trees of rnmdb-sql in a plan are types of
-- Planner/Logical. The disk of Storage/Hybrid is the interface Storage/Disk; two of the theorems
-- about it ask that a page that is written is read back as `PageCodec` encodes it, which
-- Storage/SingleFile proves of the program's disk. A cancellation token is when it is set, counted
-- in checks.
--
-- Not modelled: the parser and binder, the making and costing of plans, the evaluation of plans,
-- the catalog, the superblocks, backups and upgrades of files, full-text search, the WebAssembly
-- engine, the server and the command line, which stand on the SQL types, on files, sockets and
-- libraries; and of the crates above the inverted and range indexes, the R-tree of the bounds
-- index, whose choices compare floating-point areas, credentials, column keys, the texts of audit
-- events, metrics and configuration.
pub mod Base
pub mod Collections
pub mod Common
pub mod Txn
pub mod Index
pub mod Instance
pub mod Security
pub mod Types
pub mod Sql
pub mod Planner
pub mod Executor
pub mod Storage
