-- ===== src/Lib.antt =====
-- RaftKV, a sharded key-value store that replicates its writes with Raft: a model of its core.
--
-- A node of the program has a Raft node (`src/raft/node.rs`), which owns the replicated log
-- (`src/raft/log.rs`) in its state (`src/raft/state.rs`) and saves term, vote and log to a file
-- (`src/raft/persist.rs`). It is driven by ticks, by messages of its peers (`src/raft/message.rs`,
-- dispatched in `src/transport.rs`) and by proposals of clients, and answers with actions: messages
-- to send and committed commands to apply. Applied commands go to the storage engine
-- (`src/storage/engine.rs`), a write-ahead log (`src/storage/wal.rs`) in front of a memory table
-- (`src/storage/memtable.rs`). Which shard a key belongs to is decided by a hash ring
-- (`src/sharding/ring.rs`) behind a router (`src/sharding/router.rs`). The cluster node
-- (`src/cluster.rs`) holds all of these and answers the clients' commands.
--
-- The files, by the code they model. A method `f` of the code is the function `f` of its module,
-- taking the state and returning the new one; the stages of a long handler are functions of their
-- own.
--   OrderedMap          the standard library's BTreeMap, as a list in the order of its keys
--   Storage/Lines       the standard library's `lines` and `split`, on bytes
--   Storage/Memtable, Storage/Wal, Storage/Engine    src/storage
--   Sharding/Ring, Sharding/Router                   src/sharding
--   Raft/Log, Raft/Message, Raft/State, Raft/Persist src/raft
--   Raft/Node           the node, its timers' reset, saving and restoring
--   Raft/Node/Election  tick, elections and votes
--   Raft/Node/Entries   both sides of AppendEntries, and propose
--   Raft/Node/Replicate the leader's requests
--   Raft/Node/Commit    the commit rule and the apply loop
--   Raft/Node/Step      every input of a node as one function, and runs
--   Decimal             the standard library's printing and reading of numbers
--   Protocol            the commands and replies of src/network/protocol.rs
--   Protocol/Parse      Command::parse
--   Protocol/Replies    Response::serialize
--   Cluster             src/cluster.rs
--   Transport           src/transport.rs, lines sent and received
--   Server              src/network/server.rs, a tick and a command, each under the lock
--   Server/Requests     the reading of requests in handle_client
--   Server/Commit       await_commit
--   Server/Connection   handle_client, a connection from its first line to its end
--   Server/Start        Server::new
--   Main                src/main.rs, the configuration of a process
--   Main/Integration    src/main.rs, the integration tests, to be evaluated on the model; the JSON
--                       library is an argument of those that save a state
--   Metrics             src/metrics.rs, the text of the metrics
--   System              all nodes of a cluster and the lines between them, as a step relation whose
--                       steps are the functions of Transport and Server, and restarts
-- The theorems about the Raft node are in Raft/Votes (terms and votes), Raft/Merge (the log of a
-- follower), Raft/Commits (the commit index and the applied commands), Raft/Durable (the state
-- file), Raft/Replication (rounds between a leader and a follower) and Raft/Timers (elections by
-- timeout); those of the other parts are in the modules below the code's. System/Voters,
-- System/Lines, System/Sound and System/Runs hold the invariant of the whole cluster: one record
-- of all votes that every node and every line in flight agrees with. System/Ledger holds a second one
-- on top of it: a record of who led each term and with which log. What one handler does to the log,
-- and which requests it sends, is in Raft/Writes; logs that agree with such a record are in
-- Raft/Matching.
--
-- Choices. Texts are lists of bytes. Numbers of 64 bits keep their wrap-around, as in a release
-- build, where the code can reach it: terms, the indices that a message names, the sizes and the
-- hash. Indices that the length of a list bounds are plain numbers. Loops are recursion on the
-- list they go over, or on the number of rounds left, which the caller computes from the loop's
-- own bounds, so that none can run out. The decimal printer is given 20 digits, which a 64-bit
-- number never exceeds. The JSON library is a parameter, of which Raft/Durable and System assume
-- that it reads back what it wrote. The outcome of each write to the state file and of each sync
-- of the log is an input, failures after part of the bytes included. A set of votes is a list
-- without repetition.
--
-- The cluster is a state of all nodes and of all lines ever sent. A step is one lock's work of one
-- thread on one node, as the mutex of the code allows; a line can be received at any time after it
-- was sent, any number of times, or never, but whole, and by the node it was sent to. New nodes can
-- have any timers. A node ticks only while its term is below the largest 64-bit number, and serves
-- a client only while one more entry keeps the length of its log within 64 bits, which no memory
-- can reach.
-- The Unicode upper case of command names and the environment variables are parameters. So is the
-- test for UTF-8 that reading a line makes, of which the theorems on a client's requests assume that
-- it takes every ASCII text. The clock
-- and the commit index that await_commit sees are its inputs, one pair for each pass.
-- What other threads do to the node between two commands of a connection is an input of each turn.
--
-- Not modelled: printing, sockets, the starting of threads, the HTTP server of the metrics, and the
-- early write of a full BufWriter.
pub mod Prelude
pub mod OrderedMap
pub mod Storage
pub mod Sharding
pub mod Raft
pub mod Decimal
pub mod Protocol
pub mod Cluster
pub mod Transport
pub mod Server
pub mod System
pub mod Main
pub mod Metrics
