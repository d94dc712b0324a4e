-- ===== src/Lib.antt =====
-- decern decides authorization requests against a graph of principals, and writes every decision to
-- a signed, hash-chained ledger that anybody can check afterwards. This library models the parts
-- that the others trust:
--
-- * Ledger (crates/decern-ledger). Ledger/Merkle.antt is merkle.rs: the RFC 9162 tree over the record
--   hashes, the generators of inclusion and consistency proofs and their verifiers.
--   Ledger/Record.antt is record.rs and error.rs: entries, records, errors. Ledger/Verify.antt
--   is verify.rs: the scan that accepts a log (`verify_lines`), with the signers' succession
--   (`check_signer`), and its child Read holds the readers that stand on the scan.
--   Ledger/Anchor.antt is anchor.rs, checkpoint.rs, `trusted_anchor` and `refuse_removed_history` of
--   open.rs and `verify_against_anchor` of ledger/commitments.rs: whether a log still extends a checkpoint.
--   Ledger/Commitments.antt is the commitments of ledger/commitments.rs without its evidence snapshot and
--   without files: signed checkpoints and tree heads, and the hexadecimal proofs over the leaves that the records name.
--   Ledger/Writer.antt is the writer of a single file, ledger.rs with `resolve_open_head` of open.rs: `append`,
--   `append_all`, `rotate`, `self_verify`, the opening of a log and, in its child Records, the windows that are not verified. Ledger/File.antt is the rest of that file: the
--   bytes of a log, its lines (`ChainedLines` of segment.rs) and the torn tail that a crash leaves.
--   Ledger/Segment.antt is the manifest of segment.rs: the names of segments, the shape of a manifest, and its rollover.
-- * Kernel (crates/decern-kernel). Kernel/Graph.antt is the directory of graph.rs with its walks
--   (`ancestors_of`, `revoked`, `first_cycle_id`), Kernel/Parse.antt reads it from JSON (`parse`), and
--   Kernel/Validate.antt holds its load-time rules (`validate`). Kernel/Inject.antt is `inject_derived`
--   of lib.rs, which writes the computed attributes into the entities, and Kernel/Context.antt the union of
--   declared contexts in context.rs.
-- * Store (crates/decern-store). Store/Missions.antt is missions.rs, the registry of missions, with its backend in memory
--   (Memory) and in a file that processes share (Coherent, of fsio.rs, and File).
-- * Identity (crates/decern-identity). Identity/Badge.antt and Identity/Admission.antt are lib.rs: badges as compact
--   JWS, and their admission to the graph. Identity/Exchange.antt is exchange.rs and Identity/Mission.antt mission.rs.
--   An admission loads the kernel (Kernel/Load.antt, `Kernel::new`) with what Cedar decides as a parameter.
-- * Base holds what the parts share: tests on numbers, lists measured by native numbers, byte strings,
--   JSON values, key-ordered dictionaries and 64-bit integers that are only compared.
--
-- The kernel's directory is checked once, before decisions are made on it. Each decision is one record of
-- the ledger. The server that joins the two is not modelled.
--
-- The stamp of a shared file stands for its fingerprint, which every write changes, and reads and writes of that
-- file succeed. The base64, serde_json and Ed25519 of badges are the fields of `Jose`, and `JoseLaws` says what is used of them.
--
-- A byte string is a list of numbers. SHA-256, hex, base64, Ed25519 and serde_json are the fields of the
-- record `Crates`, and the tree takes SHA-256 as a parameter. What the proofs use of them stands in
-- `HashLaws`, `SignLaws` and in hypotheses on the length of a digest: a digest has 32 bytes, hex has two
-- digits for each byte and is decoded to what was encoded, base64 is decoded to what was encoded, and a
-- signature of 64 bytes verifies under the key that made it. No theorem assumes that SHA-256 is injective: where
-- the code relies on it, the conclusion offers the two inputs of a collision instead.
--
-- The scan takes a log as the list of its lines, each line read or an error of the read, and without the
-- fragment of a torn tail, which `verify_inner` takes as the offset where it begins. The writer stands on the bytes of
-- one file. A write and its sync are one event, `landed` or `broke` with the number of bytes that reached the file,
-- and a read of the file succeeds. What the writer uses of serde_json is in `PrintLaws`, and `IsReadable` says that the
-- parser does not refuse an entry that was printed, as it does for one that is nested too deep. An error message
-- stands as a constructor with the values that the message shows. A `BTreeMap` is an association
-- list in key order, a `BTreeSet` a sorted list; the theorems on `validate` and the walks need no
-- order.
--
-- Loops run on fuel where they are not structural. `split`, the tree and the proofs use the number of
-- leaves, `shift_zeros` and `shift_ones` the index that they halve, and the walks over the directory one more
-- than the number of its entries, since each round but the last marks one entry.
--
-- `scan_back` uses the length of the file, since each chunk moves it down.
--
-- Not modelled: locks, syncs and permissions of files, the rollover inside `append` and the failures of its files, shards, the evaluation of Cedar policies, the ledger head store, SQL and the
-- server. An operation of a mission that takes no registry is not modelled either: the code keeps it for tests.

pub mod Base
pub mod Ledger
pub mod Kernel
pub mod Store
pub mod Identity
