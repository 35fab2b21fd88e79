-- ===== src/Lib.antt =====
-- ProxyEngine, a delayed-binding TCP proxy: a client's handshake is answered by the proxy itself,
-- and the server is selected only when the first payload has come in. Each pipeline of the engine
-- owns a range of TCP ports, and gives one to each client connection; packets are then carried over
-- between client and server under translated addresses, ports and sequence numbers.
--
-- The parts, and the files that model them (paths from the repository's root):
--   Record      src/cmanager.rs, Extension: the record of a server side's states, with stamps.
--   Detailed    src/cmanager.rs, DetailedConnection: a connection's slot in the record store.
--   Connection  src/cmanager.rs, ProxyConnection.
--   Manager     src/cmanager.rs, ConnectionManager: the free ports, the connections by port, and
--               the ports by client socket.
--   Forward     src/nftcp.rs, the functions that rewrite packets: client_syn_received,
--               select_server, server_synack_received, client_to_server, server_to_client.
--   Allocator   src/nftcp.rs, PduAllocator.
--   Flow        src/nftcp.rs, the variables with which the closure handles one packet.
--   Client      src/nftcp.rs, the closure's branch for a packet of a client.
--   Server      src/nftcp.rs, the closure's branch for a packet of a server.
--   Pipeline    src/nftcp.rs, the closure: entry filter, ticks, the two branches, release; its
--               children Good, Rooms, Ticks, Ready and Runs say what any sequence of its calls keeps,
--               Records what a packet does to its connection's record, Groups where a packet
--               goes.
--   Config      src/lib.rs, the configuration's types.
--   Start       src/nftcp.rs, setup_delayed_proxy before the closure.
--   Wiring      src/nftcp.rs, the tasks and streams around the closure, and the messages about them.
--   Pipes       src/lib.rs, setup_pipes_delayed_proxy: what one core runs for its ports.
--   Program     src/bin.rs: targets, callbacks and mode; Program/Main the whole of main, over the
--               acts of Program/Effects; Program/Records the evaluation of the connection records,
--               Program/File their file, Program/Replies the collection of the replies; Program/Engine
--               puts main, the set-up and the closure together.
-- Base, Tcp and Packet hold what they share, Samples a small set-up on which the theorems are run.
--
-- A pipeline handles one packet at a time: the closure looks the connection up in the manager by
-- socket or by port, runs one of the two branches on it, writes it back and releases its port if the
-- branch asked for that. A `&mut ProxyConnection` is therefore a port with the connection read there,
-- and writing through it is `put_con`. A step that may panic returns `Result`, whose `panic` stands
-- for a failed assertion, an unwrap of None, an index out of range or an overflow. The record store
-- that connections share is a number into a heap of stores. u16, u32 and u64 wrap as in the source.
--
-- What other crates do is a parameter: External has the record store, the timer wheel and the
-- packet helpers of netfcts and e2d2 with the laws that the proxy relies on, Tcp the order of the
-- TCP states, and the callbacks of src/lib.rs are arguments; the one that selects a server may
-- panic. Start and Program take the calls of other crates (port shuffling, default time-outs,
-- deserialization, a record's stamps) in the same way. The loop of release_timeouts runs on fuel;
-- one more than the slots that are due is enough, and the pipeline gives that. Channels say with
-- each call of the closure what waits for it, and whether the run time can still be answered.
--
-- Not modelled: the inside of e2d2's batches, queues and scheduler, which Wiring takes as the
-- interface Streams; logging in src/bin.rs; the integration tests; within the functions logging,
-- profiling, checksum offload flags and the reference counts of packet buffers, with the assertion
-- on one of them in server_synack_received. What the flow director and a kernel interface have for
-- a queue is taken as read by setup_delayed_proxy, and the count of ticks as a number without end.
-- A pipeline with detailed records keeps seven states of a server side; what any sequence of
-- packets keeps is shown for it as long as the records that the packets are for have room, since
-- nothing in the code bounds the states that a server pushes.
mod Base
pub mod Tcp
pub mod Packet
pub mod Record
pub mod External
pub mod Detailed
pub mod Connection
pub mod Manager
pub mod Forward
pub mod Allocator
pub mod Flow
pub mod Client
pub mod Server
pub mod Pipeline
pub mod Config
pub mod Start
pub mod Wiring
pub mod Pipes
pub mod Program
mod Samples
