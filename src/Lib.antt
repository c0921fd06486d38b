-- ===== src/Lib.antt =====
-- A verification library for Lattice, a daemon that runs one language model on the GPUs of several
-- devices, each device holding a run of its layers.
--
-- The program has three crates. crates/lattice-net finds, pairs and connects devices: a device is
-- named by a digest of its public key (identity.rs), comes to trust others by a pairing over a
-- six-digit code (pairing.rs) or by an introduction, keeps the devices that it trusts in a file
-- (trust.rs), holds one connection to each (mesh.rs, transport.rs, tls.rs), and speaks over streams
-- that open with a header (stream.rs) and carry frames (codec.rs). dispatch.rs hands each stream to
-- what serves it: control requests (control.rs), the steps of a session (activation.rs), a measurement
-- (probe.rs), or a proxied connection (rpc.rs). crates/lattice-engine holds the layers: what crosses a
-- boundary (abi.rs), what a model file says of itself (facts.rs), and the shard with its one session
-- (candle.rs). crates/latticed decides which GPU gets which layers (chat/plan.rs), answers the control
-- messages and runs the steps (node.rs), saves a pairing (pairing_session.rs), keeps the GPU server of
-- a worker (runtime.rs), drives a chain of shards (generate.rs), and starts a worker that looks for its
-- master (startup/worker.rs) and a chat that looks for its workers (chat.rs).
--
-- Files and code. A file under Net models the file of crates/lattice-net/src with its name; Net/Bytes
-- has the little-endian integers that the codecs use, and Net/Message a message that is encoded into a
-- frame; Net/Json has the records of the trust file. Engine/Error, Engine/Dtype and Engine/Abi model lib.rs and abi.rs of
-- crates/lattice-engine/src; Engine/Facts, Engine/Metadata, Engine/TensorName and Engine/Inventory
-- model facts.rs, and Engine/Candle candle.rs. Daemon/Planner models crates/latticed/src/chat/plan.rs,
-- Daemon/Generate the placements in crates/latticed/src/generate.rs, Daemon/Generate/Pipeline the
-- chain of shards there and Daemon/Generate/Decoding the decode loop, Daemon/Startup/Target how
-- crates/latticed/src/startup/worker.rs finds a master and Daemon/Startup/Worker its loop, Daemon/Startup how startup.rs and main.rs dial, Daemon/Chat the
-- workers of crates/latticed/src/chat.rs, Daemon/Runtime the selection of a GPU in
-- crates/latticed/src/runtime.rs and Daemon/Runtime/Worker the rest of that file; Daemon/Node models
-- the introductions in crates/latticed/src/node.rs, Daemon/Node/Shard the thread that owns the shard,
-- Daemon/Node/Requests the answers to requests, and Daemon/PairingSession
-- crates/latticed/src/pairing_session.rs. The definitions of a component stand in its own file and
-- keep the names of the functions, and what is proved of them stands in the files below it, or at its
-- end where that is short; the Examples files hold runs and instances.
--
-- The chain of shards uses the engine's shard for a stage on the device itself, and for a stage on a peer
-- the thread of the peer's node, which Daemon/Node/Shard models: the threads of all peers are one state,
-- so that two stages on one peer share their thread. What is sent to a peer arrives there; the streams
-- themselves are modelled in Net/Activation. Engine/Candle/Composition states what two shards of
-- neighbouring ranges have to do with the one of both.
--
-- State is passed explicitly: an operation on the trust store, the mesh, a shard, a worker or a node
-- takes the state and returns the answer with the new state. A failing operation returns `err` with
-- the state that it leaves; a panic is `none`. Where the worker's runtime or the acceptance of
-- introductions waits or gives up its lock, what the other tasks do to the state is an argument. Where
-- the mesh dials, the registry is taken to stay as it is until the address answers. Methods of two types
-- that have one name are told apart by their module; `PairedPeer::new` is `paired`.
--
-- Parameters, for code that the repository does not hold: `Floats`, the hardware floats by which the
-- planner ranks its cuts, of which nothing is assumed; `Crypto`, Ed25519 keys and SHA-256, with what
-- a key's bytes and a digest's length are, and the hex digits and the JSON text of the trust file, which
-- are read back as they were written; `X509`, the parser of certificates; `Exchange`, SPAKE2, HMAC
-- and postcard, with the agreement of two SPAKE2 sides on a key; `Pipe`, a QUIC stream that delivers its
-- bytes in order; `Wire`, postcard at a type of messages, which decodes what it encodes; `Content`,
-- what candle parses of a model file; `Library`, the tensors of candle and the layer stack over them
-- (crates/lattice-engine/src/llama.rs, a copy of the one of candle-transformers), with what clearing a
-- cache means; `Composes`, that a range of layers runs as its two halves do one after the other, and that
-- hidden states are finite tensors of f32, which from_vec makes again; `Texts` and `Parsers`, the texts of
-- ids, numbers and addresses, by hex and the standard library; `dial`, what an address answers with.
-- `Executor`, `ControlHandler` and `RpcHandler` are
-- the traits of those names with the state behind them. Whether a write to the disk succeeds, the
-- clock, and what the operating system answers are arguments.
--
-- Bounds. Unsigned integers are natural numbers. Where the source computes in u64 or usize without a
-- check, the wrap-around at 64 bits is written out; checked operations fail where they do, and the
-- planner's sums are in u128. Loops over lists are recursion on the list; the planner's loop
-- `while end < layers` is recursion on a count of rounds, `layers`, which `end` cannot outrun. The loops
-- that serve a stream are recursion on a count of rounds, the bytes of the stream and one more, which
-- is enough since every round takes bytes off the stream; a stream has the bytes that the peer ever
-- sends on it, and reading past them fails, so that waiting for a silent peer is left out. The u32 counters of accepted introductions
-- are not bounded, as a message cannot hold that many.
--
-- Not modelled: files, sockets, mDNS, the making of certificates and the reading of a process's
-- output, which are I/O; the copying of bytes through a tunnel; the arithmetic of tensors, which is a
-- library's; the launch of a chat's engine, the registry of a master's workers and the set-up of a
-- worker's service, GPU and firewall; command lines and printed texts, of which the models keep the
-- occasion and the numbers.
pub mod Prelude
pub mod Engine
pub mod Net
pub mod Daemon
