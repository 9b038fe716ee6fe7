-- ===== src/Lib.antt =====
-- Kanrin: a tunnel whose sessions survive a change of transport. This library models the protocol
-- crate, kanrin/kanrin-core/crates/kanrin-protocol, the switching rules and the posture of the client,
-- kanrin-client, the front door and the sessions of the server, kanrin-server, what the tunnel
-- does with packets, kanrin-tun, the routing rules and the fragmentation of messages; paths below are
-- relative to kanrin/kanrin-core.
--
-- How the parts interact. A client and a server agree on session keys (`ClientHandshake`,
-- `ServerHandshake`), or a client enters through the front door, which serves its request as a web
-- server does and admits it if its cookie is a valid token. `Session::encrypt_outgoing` numbers a chunk, seals it by
-- `Chunk::encode_sequenced` and hands the bytes to a transport; the caller keeps them in a
-- `SendBuffer`. The peer opens them by `Session::decrypt_incoming` and feeds the payload to its
-- `ReceiveBuffer`, which delivers in order and builds acks, and an ack that comes back releases what it
-- names from the `SendBuffer`. When a transport dies, the two ends prove on a new one that they
-- are the same (`ResumeRequest`, `ResumeResponse`), and `replay_onto` sends what the `SendBuffer` still holds.
--
-- Files.
--   Common: the shared names, and models of what the code takes from Rust's libraries: byte slices and
--     big-endian integers (Bytes), `String::from_utf8_lossy` (Utf8), `BTreeMap<u64, _>` (SortedMap),
--     `HashMap` (Table, and Assoc for keys of any type), `u64` arithmetic (Word), `str` (Text).
--   Protocol/Error: crates/kanrin-protocol/src/error.rs. A function that returns `Result` returns
--     `Result` here, whose third constructor `panic` stands for an index out of range.
--   Protocol/Crypto: crypto.rs of the same folder. The primitives of third-party crates are the
--     records `Primitives` and, for X25519, `Exchange`, with the laws that their documentation states.
--   Protocol/Wire: wire.rs. Header is `ChunkHeader`, Chunk is `Chunk`, Control is `ControlMessage` and
--     `validate_sack_ranges`, Proxy is `ProxyRequest`, Frame is `frame_chunk` and `deframe_chunk`.
--   Protocol/Continuity: continuity.rs. SendBuffer, Replay and ReceiveBuffer are the types of those
--     names; Carrying is what `serve` of crates/kanrin-server/src/session.rs, and pipeline.rs of the
--     client, do with them for a chunk; Link puts two ends on a network that reorders, repeats and
--     loses, as a step relation in which data and control chunks share a counter.
--   Protocol/Session: session.rs, with `SessionManager` in Session/Manager.
--   Protocol/Handshake: handshake.rs, with the two state machines in Client and Server.
--   Protocol/Resume: resume.rs.
--   Client/Switch: crates/kanrin-client/src/switch.rs. Client/Posture and
--   Client/Multipath: posture.rs and multipath.rs of the same folder.
--   Server/Http, Server/FrontDoor, Server/Registry: http.rs, frontdoor.rs and registry.rs of
--     crates/kanrin-server/src. Server/Addresses: `IpAllocator` of session.rs there.
--   Tun/Packet, Tun/Nat: packet.rs and nat.rs of crates/kanrin-tun/src. Tun/FakeIp is `FakeIpPool`, and
--     Tun/Dns the rest, of dns.rs there.
--   Decoders: what holds of the decoders of several crates alike.
--   Routing/Rules: crates/kanrin-routing/src/rules.rs. A rule is the record of its methods.
--   Routing/GeoIp: geoip.rs of the same folder.
--   Stealth/Fragment: crates/kanrin-stealth/src/fragment.rs.
--
-- A method with `&mut self` takes the state and returns the new one beside its result. Lists of numbers
-- stand for bytes, native numbers for machine integers, with the wrap-around written out. The clock
-- and random bytes are arguments, and floating-point numbers the record `Double`.
--
-- Fuel and bounds. The delivery loop of `ReceiveBuffer::accept` has the number of pending chunks as
-- fuel, since each round takes one off. The loop of `replay_onto` has fuel too, and a run
-- that is out of it says so (`unfinished`). The loop of `fragment` and the walk of `find_sni_offset`
-- have the number of bytes of the message as fuel, since each round advances. Sequences are taken below 2^64 - 1, since
-- `encrypt_outgoing` refuses to number a chunk 2^64 - 2 or above. The loop
-- over the labels of a DNS query has the length of the packet as fuel, and panics if it runs out.
--
-- Not modelled: the transports, the tunnel device, the kill switch, the rhythm of packets,
-- and the engine, which are sockets, system calls, floating-point
-- scores or code for which a model is planned; in kanrin-server, the rest of session.rs, and origin.rs, and in
-- frontdoor.rs the minting of tokens; in switch.rs, `prepare_standby`
-- and `resume_on`, which drive sockets; the random generators.
pub mod Client
pub mod Common
pub mod Decoders
pub mod Protocol
pub mod Routing
pub mod Server
pub mod Stealth
pub mod Tun
