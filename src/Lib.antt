-- ===== src/Lib.antt =====
-- A model of Basalt, a replicated key-value store, and theorems on it.
--
-- The program stacks these parts. An LSM engine (db.go and internal/memtable, internal/sstable,
-- internal/manifest) keeps versions of keys under internal keys (internal/base) and logs every
-- write batch to a write-ahead log of framed records (internal/wal). A raft group
-- (internal/raft) replicates commands: the host feeds a node messages and ticks, drains a Ready,
-- persists it through the storage (internal/raft/storage.go, the record format of internal/wal),
-- sends its messages, applies its committed entries to the engine (raftsm.go) and advances the
-- node. internal/shard maps keys to groups, and cluster and server put groups, shards and clients
-- together.
--
-- Modules and sources:
--   Prelude          names and lemmas that all share: tests, lists by native length, association
--                    lists and sets, encoding/binary and bytes.Compare.
--   Keys             internal/base: internal keys with their order, length-prefixed values.
--   Wal.Batch        internal/wal/batch.go: Batch, Encode, DecodeBatch.
--   Wal.Record       internal/wal/record.go: AppendRecord, NextRecord, ScanRecords, crc32c.
--   Wal.Segments     internal/wal writer.go, reader.go: the segment files, OpenWriter, Append, Replay.
--   Memtable         internal/memtable/memtable.go: the skiplist, Add, Get, findGE, the iterator.
--   Engine           db.go, batch.go: the write path and point reads.
--   Machine          raftsm.go: commands, Apply, sessions.
--   Manifest.Edit    internal/manifest/edit.go: version edits, encode, decodeEdit.
--   Manifest.Version internal/manifest/version.go: versions, applyEdit, snapshot.
--   Manifest.VersionSet  internal/manifest/version_set.go: the manifest log, replay, rotate, Apply.
--   Shard            internal/shard/shard.go: slots, ShardMap and its changes.
--   Raft.Types       internal/raft/raft.go: messages, entries, hard state, Ready.
--   Raft.Log         internal/raft/log.go: every method of raftLog.
--   Raft.Node        raft.go: the Node and its role changes, timers, send.
--   Raft.Conf        internal/raft/conf.go: membership changes.
--   Raft.Replicate   raft.go: sendAppend, bcastAppend, maybeCommit.
--   Raft.Reads       raft.go: ReadIndex, read rounds, leases.
--   Raft.Elect       raft.go: Tick, campaigns, pre-votes, votes, becomeLeader, TransferLeader.
--   Raft.Step        raft.go: Step with the handlers of append and proposal messages.
--   Raft.Drain       raft.go: HasReady, Ready, Advance, RestoreSnapshot, CompactTo.
--   Raft.Start       raft.go: NewNode, NewNodeConfig, RestoreNode.
--   Raft.Storage     internal/raft/storage.go: the state file, its writes and its replay.
-- Child modules hold proofs: Raft.Safety (what any operation keeps, runs of a node, elections),
-- Raft.Log.* (well-formedness of the log and its operations), Raft.Quorum, Raft.Commitment,
-- Raft.Storage.*, Raft.Reads.Rounds, Manifest.Edit.*, Manifest.Version.*,
-- Manifest.VersionSet.*, Shard.Assign, Keys.Before, Memtable.*,
-- Wal.Segments.*, Engine.*, Machine.* and the Codec, Order, RoundTrip and Scan modules. Tests
-- modules hold concrete runs.
--
-- Conventions. A mutating Go method is a function from the old state to the new one; a method
-- that panics returns `none`, one that returns an error a sum or a Visit (an error alone may be
-- `none` too, where a comment says so), one that does both a data type of its own. A uint64 is a number
-- with its wrap-around written out (add64, sub64); an int of ticks is a number. A Go map is an
-- association list and a map used as a set a list without repetition; where the source ranges
-- over a map, the model goes through it in the order of insertion. A nil payload is `none` where
-- the source tells nil from empty and the empty list otherwise. A message sent is appended to
-- the node's outbox, as in the source. A file is its bytes: a write is appended, a crash leaves
-- a prefix. The random bits for the heights of skiplist nodes are a parameter. Sorted tables are
-- a parameter of the engine's reads. A step of the engine is a critical section under its lock;
-- where the source waits for the background flush, the step's answer says so. The state machine
-- takes the engine by the interface Machine.Interface.
--
-- Fuel. ScanRecords and decodeEdit run on a round for each byte, since a record takes eight
-- bytes at least and a field one. The mutual recursion of confirmReadRound and maybeStartReadRound
-- runs on read_fuel, which is 2: a round takes every queued read. Loops over lists are structural.
--
-- Not modelled: of the engine, sorted tables, the flush, the directory of the version set, compaction,
-- checkpoints, iterators, opening and closing; the state machine's recovery of sessions and its
-- snapshots; the encoding of shard maps, the cluster layer and the server, all of which are left
-- for later; file errors, locks and the network, which are the operating system's; the generated
-- protobuf code; the commands and the test simulators.
pub mod Prelude
pub mod Keys
pub mod Wal
pub mod Manifest
pub mod Memtable
pub mod Engine
pub mod Machine
pub mod Shard
pub mod Raft
