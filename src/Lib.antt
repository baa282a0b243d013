-- ===== src/Lib.antt =====
-- Key-Value-Distributed-Systems: the linearizability checker, crates/linearizability, the simulated
-- network, crates/labrpc, the key-value stores of project_1 and project_5, and the testers of Raft,
-- raft/src.
--
-- The checker takes a history of operations on an object and a model of the object, and answers
-- whether some order of the operations, in agreement with their calls and returns, explains every
-- output. `check_operations` splits a history by `partition` and starts one thread for each part; a
-- thread sorts the calls and returns of its part (`make_entries`), links them in a list with a
-- pointer from each call to its return (`LinkedNodes::from_entries`), and searches (`check_single`).
-- It takes a call out of the list with its return (`lift`), tries the model, remembers in a cache
-- the sets of operations with the states that it has reached, and puts the two nodes back when it
-- backtracks (`unlift`). `wait_res` collects the answers.
--
-- The network connects clients to servers by name. `Network::process_rpc` reads the endpoints, draws
-- delays and drops, and either gives up or dispatches; the free function `process_rpc` runs the
-- hooks around the answer of the server, gives no reply when the server is dead by then, and holds a
-- reply that is to be reordered back after that check.
--
-- The store appends each command to the log file of its current generation and keeps an index from
-- keys to the places of their last values. `open` loads the log files in the order of their
-- generations; `compact` copies the values that the index refers to into a new log file and removes
-- the older ones. A server answers one command per connection.
--
-- The tester of Raft runs servers on the simulated network, with one endpoint from each server to
-- each other: it starts, crashes, connects and disconnects them, keeps what they persist, and collects
-- the entries that they commit.
--
-- Files, and what they model:
--   Base, Base/*: numbers, tests, lists, bits of numbers, integers, strings.
--   Linearizability/Bitset: crates/linearizability/src/bitset.rs, a vector of 64-bit words.
--   Linearizability/Model: crates/linearizability/src/model.rs, histories and the trait `Model`.
--   Linearizability/Models: crates/linearizability/src/models.rs, the key-value model.
--   Linearizability/Nodes: `Node` and `LinkedNodes` of crates/linearizability/src/lib.rs. An
--     `Rc<RefCell<Node>>` is an address, and the cells stand in a heap with one map for each field.
--   Linearizability/Entries: `make_entries`, `renumber`, `convert_entries`, `from_entries`.
--   Linearizability/Search: the cache and `check_single`; `iteration` is one round of its loop.
--   Linearizability/Checker: histories and linearizations without pointers, and the checker from end
--     to end. Checker/Realtime says what a linearization of a history of operations is, from the times of
--     their calls and returns alone.
--   Linearizability/Threads: `check_operations`, `check_events`, `wait_res`.
--   Labrpc/Service: crates/labrpc/src/server.rs; the factories of handlers are arguments.
--   Labrpc/Calls: crates/labrpc/src/{client.rs, macros.rs}; labcodec is a parameter.
--   Labrpc/Network: crates/labrpc/src/network.rs; the random numbers, the hooks and the answer of the
--     server are arguments.
--   Memory: project_1/src/kvs.rs, a store in memory.
--   Kvs/Log, Kvs/Errors: project_5/src/engines/kvstore/{command.rs, log_writer.rs, log_reader.rs} and
--     project_5/src/error.rs. A file is a list of bytes and the directory a map from generations.
--   Kvs/Load: `load_log_file` and `sorted_generation` of project_5/src/engines/mod.rs.
--   Kvs/Reader, Kvs/Writer, Kvs/Store: kv_reader.rs, kv_writer.rs and kvs.rs beside those.
--   Kvs/Engine, Kvs/Server: the trait of the engines, and project_5/src/server.rs.
--   Kvs/Client: project_5/src/{client.rs, response.rs}.
--   Kvs/Main: project_5/src/bin/kvs-server.rs.
--   Kvs/Pool: project_5/src/threadpool/shared_queue.rs, as steps of the threads.
--   Tester/Storage: the type `Storage` of raft/src/raft/config.rs and what is done when a server applies
--     a command or a snapshot.
--   Tester/Persister: raft/src/raft/persister.rs. An `Arc<SimplePersister>` is an address.
--   Tester/Config: the type `Config` of raft/src/raft/config.rs, over Labrpc/Network.
--   Tester/Checks: `check_terms`, `check_no_leader`, `wait` and `one` of raft/src/raft/config.rs.
--   Tester/Leaders: `check_one_leader` of raft/src/raft/config.rs.
--   Tester/Kv: the type `Config` of raft/src/kv/config.rs, over Labrpc/Network.
--   Kvs/Sample: a codec with the laws that the store relies on.
--
-- A panic is `none` or `panicked`. `usize` and `u64` are numbers, with the wrap-around of the
-- multiplication in `popcnt` and the bounds of 64-bit words written out; identifiers are counted
-- from 0, one for each operation in memory, and do not overflow. The loop of `check_single` runs on
-- fuel: `budget n` rounds are enough for `n` operations, since a level of the search with `n`
-- operations left reads at most `2 * n` entries and each may open one level with `n - 1`. `len` runs
-- on one more round than there are cells.
--
-- The threads are modelled by their answers in the order of arrival. A thread whose answer is
-- received has never read a set flag, since only `wait_res` sets it, when it stops receiving;
-- `check_single` alone is modelled with a flag that any round may find set. The clock of
-- `recv_timeout` is not modelled: a timeout is a message. The joins of the threads come after `wait_res`. The order in which a `HashMap` is iterated
-- over is not modelled: a map is a list of pairs with one pair for each key, and what is stated of
-- it does not depend on the order.
--
-- serde_json is a parameter of the store, `Codec`, with `std::io::copy`. The laws that theorems ask for
-- are that a stream gives commands with the offsets behind them and a syntax error on a byte 0
-- (`IsStreaming`), and that a command is written with its first two bytes as pieces of their own
-- (`IsPieced`). It reads and writes through the handles of the source, `read` and `write` of Kvs/Log,
-- which answer their position where the number of bytes is asked for. Errors of the operating system are
-- not modelled, nor are the locks and the buffers, and a file that is removed is gone for its handles as
-- well.
--
-- The server and the client are given what comes in: the outcomes of `bind` and `accept`, the bytes
-- that have arrived when a connection is read, and the outcome of each attempt to connect. The loop
-- of the server is recursion on what comes in, and its result is `none` while it waits for more; the
-- loop of `connect` runs on six rounds of fuel, one more than the attempts that it may make. The
-- retries and the waits are small numbers, far from the bounds of their types. Logging is left out.
--
-- Raft is a parameter of its testers, since its operations are todo! in the source: a constructor of its
-- nodes, whatever their type, and what a node says of itself. What the nodes apply are arguments. The
-- clock of the testers is left out, but for the pauses of `wait`: the turns of `one` are as many as it
-- is given. `check_one_leader` takes ten turns and `wait` thirty, as in the source.
--
-- Not modelled: the channels and thread pools of crates/labrpc, the stores project_2 to project_4,
-- the servers and clients of project_3 and project_4, the engines over sled, the other thread pools
-- and the command lines of the projects, and Raft itself.
pub mod Base
pub mod Kvs
pub mod Labrpc
pub mod Linearizability
pub mod Memory
pub mod Tester
