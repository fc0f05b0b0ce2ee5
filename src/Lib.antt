-- ===== src/Lib.antt =====
-- MA2A, the C++ library of cpp/include/ma2a: signed jobs between nodes, carried in framed JSON
-- over TCP, with failover to another node when an attempt fails.
--
-- The parts, from the inside out. A message is a record (Contracts, for contracts.hpp). It is
-- printed as canonical JSON, which is signed, and as a signed object inside an envelope, which is
-- sent (Json and Wire, for canonical.hpp, wire.hpp and failure_notice.hpp). The receiver splits
-- the envelope and reads its flat object (Json/Reader and Wire/Parse, for wire_parse.hpp). A text
-- travels as a frame (Framing, for framing.hpp) through a socket (Tcp and Connect, for tcp.hpp). A
-- `SocketHandle` owns the descriptor (Socket, and Connect/Handle for the functions that connect
-- with one). Signatures are made and tested by OpenSSL (Crypto, for crypto.hpp, job_auth.hpp and
-- failure_notice.hpp). Job, for job.hpp, checks messages. Executor, for
-- authenticated_tcp_executor.hpp, makes one attempt: sign, connect, send, receive, parse, test the
-- contract and the signature, and turn every failure into a notice that it signs itself. Engine,
-- for resilient_execution.hpp, asks a route provider for a node, lets the executor attempt it, and
-- goes on until a result, the cap of attempts, or no further node; Orchestrator, for
-- execution_orchestrator.hpp, keeps its state. Routing, for resolutive_routing_adapter.hpp, is a
-- route provider.
--
-- Python has the reference of reference/python/ma2a: `canonical_json` and the jobs (auth.py,
-- job.py) with `send_frame` (transport.py), which make and test messages that the C++ library
-- reads or signs too; failure notices and capability advertisements (Python/Notices and
-- Python/Capability, for capability.py); certificates and the verifier of the handshake, whose
-- state is the set of consumed challenges (Python/Auth, for auth.py); the resolution of
-- conflicting updates (Python/Conflict, for conflict.py); and the memory of routes, which resolves
-- a condition from its own tables or by an external resolver, and imports the routes of other
-- nodes (Python/Routes, for rm_bridge.py; Python/Delta and Python/Values, for wire.py).
--
-- Function names are those of the source; a method of a class is a function on the record of the
-- same name, and an overloaded operator is `attempt` (Executor) or `provide` (Routing).
-- `connect_ipv4_within` is `connect_ipv4_with_timeout` with its handle; Connect has the same
-- function without it, which the executor calls. The methods of Python's classes, and its
-- functions on messages, are functions `validate_request`, `sign_result`, `verify_notice` and the
-- like. `HandshakeVerifier.verify` takes and returns the consumed challenges, and its last parts
-- are `verify_device` and `verify_signature`. The other modules hold proofs, and Tests the
-- concrete runs.
--
-- How C++ is read. A `std::string` is a list of byte codes. An `std::int64_t` is an integer over
-- the native numbers; where the code computes with one without a check (`integer()` of
-- wire_parse.hpp), a value out of range makes the outcome `undefined`, since signed overflow is
-- undefined behaviour. An exception is the outcome `throw`, with one constructor for each message.
-- An object that a method mutates is an argument and a result; a method that throws tests before
-- it writes. The position of the JSON reader is the text that remains. An `std::optional`, a
-- pointer that may be null and a `std::function` that may be empty are options. The set of
-- excluded nodes is a list, since only membership is asked of it.
--
-- How Python is read. A `str` is the list of its code points, an `int` a 64-bit integer (one that
-- is only compared may be of any size), a `dict` with literal keys a list of members, `asdict` the
-- list of the fields, and a tuple or a set of texts a list. An exception of a message's checks is
-- named by its text, as those of C++ are; one that is caught where it is raised, or is the only
-- one, is `none` or `false`. `json.dumps` is modelled as it is called: keys sorted, no spaces,
-- ASCII only. A Python message stands for the C++ message with the UTF-8 of its texts
-- (`encode_request` and `encode_result` in Python/Messages).
--
-- Handles are objects named by their place in a list; the kernel's descriptors are a table, and a
-- counter of the calls of `close` on one that is not open, which an owner must never make.
--
-- What is not in this repository is a parameter. The kernel is the list of the answers of the
-- successive calls of `send`, `recv` and `poll`, and Booleans for the calls that succeed or fail;
-- a list that ends too early leaves the outcome `unfinished`. That `recv` delivers no more bytes
-- than were asked for is part of `Delivers` (Tcp/Stream) and of `FitsFrame` (Tcp/Delivery).
-- OpenSSL is the record `OpenSsl` of the calls that the code makes, and what its manual says of a
-- key pair and of base64 is a hypothesis where it is needed (`IsKeyPair` and `IsBase64` in
-- Crypto/Signing). `inet_pton` is a function. The packages `cryptography` and `base64` are the
-- record `Cryptography`, with the hypotheses `IsPair` (Python/Auth/Keys) of a key pair and
-- `IsSameKey` (Python/Signing) where a key is shared with OpenSSL. The random texts of `secrets`
-- and the time are arguments. Python's `float` is the record `Floats` (Python/Capability), and the
-- case and the white space of Unicode with SHA-256 are the record `Platform` (Python/Routes), and
-- `json.loads`, the decoding of UTF-8, `int`, and the printing and the sign of floats are the
-- record `Builtins` (Python/Values), whose `JsonValue` is a value of any of JSON's types. The
-- router is the record `RoutingLibrary`. The route provider and the attempt executor of the engine
-- are functions on a world of any type, so that they may keep state; the executor reads the clock
-- and the network of each attempt from it.
--
-- Bounds and fuel. The loop of `FlatJsonReader::string` runs on fuel, one more than the bytes that
-- remain, and each round consumes one at least. The loop of `execute` runs on one more than the
-- cap of attempts, and each round that goes on adds an attempt. A 64-bit integer has at most
-- nineteen digits, which is the fuel of the digits. The `int` that counts braces is a natural
-- number, which is the same for texts under 2 gigabytes; a frame holds at most a megabyte.
--
-- Not modelled: the ownership of OpenSSL's objects, which `std::unique_ptr` keeps; a deleted copy
-- of a `SocketHandle`, which the compiler refuses; the narrowing of a timeout to the `int` of
-- `poll`. Of Python, `recv_frame` with its `json.loads`, the sockets of transport.py,
-- `export_delta` of rm_bridge.py and `encode_reference_delta` of wire.py, which only read; and the
-- clock that `verify_certificate` reads when it is given no time. The test programs.
pub mod Base
pub mod Contracts
pub mod Json
pub mod Wire
pub mod Framing
pub mod Tcp
pub mod Orchestrator
pub mod Engine
pub mod Job
pub mod Crypto
pub mod Connect
pub mod Executor
pub mod Routing
pub mod Socket
pub mod Python
pub mod Tests
