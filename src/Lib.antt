-- ===== src/Lib.antt =====
-- Verification of the C++ server framework under ideas/procpp/mixin_handler. A server object
-- (Server, Scheduler, EventManager) accepts connections and hands the bytes that arrive on each
-- to a protocol object by its file descriptor: on_connect, on_message(client, message), on_close.
-- A message is what one read of the socket gave, so a packet may come in many messages and a
-- message may hold many packets. A protocol holds back what is not a whole packet yet in a map of
-- buffers (StateMachine/Bufferable), reads packets through a StreamReader, whose exception AG
-- asks for more bytes and whose NG refuses the connection, and acts through the scheduler by
-- write and close.
--
-- Reader models StreamReader.h, StreamReader.cpp: a parser is a function on a reader (the string
-- and the offset) into a result, which is a value, the exception NG or AG, an exception that
-- nobody catches (`fatal`), or a loop of the model that ran out of fuel (`spent`). Reader.Local
-- states that a parser only looks at the bytes it consumes, Reader.Scans what each primitive does
-- at a position, Reader.Words the numbers in network byte order (Utils::hton), Reader.Fuel the
-- loops.
--
-- StateMachine.Buffers and StateMachine.States model StateMachine/Bufferable.cpp,
-- StateMachine/Stateful.hpp and StateMachine/StateBuffer.hpp. Session models the loop and the
-- catch block that the handlers on_message of Protocol/Soa.cpp, Protocol/Http.cpp,
-- Protocol/WebSocket.cpp and of the clients write out in the same words, and Session.Delivery
-- takes any parser that is a framing of the byte stream through it.
--
-- Soa models Protocol/Soa.cpp and the response parser of Protocol/Client/Soa.cpp, Http models
-- Protocol/Http.cpp, WebSocket models Protocol/WebSocket.cpp. Base64 models Codec/Base64.cpp,
-- where an assertion that fails ends the process and is the result none, Utf8 models
-- Codec/Utf8.cpp, Tunnel models Protocol/ITunnelLike.cpp and Protocol/Proxy.cpp, with the events
-- of a run as a step relation in Tunnel.Runs. Socks models Protocol/Socks.cpp, where an exception
-- of substr that nothing catches is the result none. Sessions models the sessions of
-- ClientServer.cpp and Protocol::read of Protocol.cpp. Events models EventManager.cpp: the
-- kernel, the callbacks and SSLConnection.cpp are fields of a record that every operation takes,
-- so a callback may call the manager again. Redis models Protocol/Client/Redis.cpp, Redis.h and
-- Redis.hpp; a reply takes at most as much fuel as it has bytes. Utils models the text functions
-- of Utils.cpp, Gateway models Protocol/HttpGateway.cpp with parse_chunked_body and
-- forward_packet of Protocol/Http.cpp; a response takes a round of fuel for each header line and
-- each chunk, none of which is empty. The gateway keeps which of its remote sockets the event
-- manager watches, connecting or standing, since that decides what a close calls back;
-- close_remote has a round of fuel for each of them, and each round takes one out
-- (Gateway.Closing). Pool models ThreadPool.cpp as a step relation of the queue and the workers,
-- who may wake up unasked. SoaClient models Protocol/Client/Soa.cpp. The names are those of the
-- source; a field of the class that an operation changes is in its argument and its result.
--
-- Bytes are natural numbers below 256, `int` and `size_t` are natural numbers with the
-- wrap-around written out, and `int` values that can be negative are integers. The scheduler is
-- the list of its calls `write` and `close`; the callbacks that an application registers by
-- `fire` are functions; SHA1 of OpenSSL is a parameter; `max_size` stands for string::max_size().
-- A close is taken to call on_close at once. The loop over packets has fuel one above the bytes
-- of the message, the loops over header lines and over frames one above the bytes of the reader:
-- every round consumes a byte, so the fuel is enough, which the theorems on endings state. The
-- recursion over nested replies, the loops over the header lines and the chunks of a response
-- (Redis.Endings, Gateway.Endings) and the loop of EventManager::write have one above the bytes
-- too, and the last is enough for a kernel that takes a byte at least. The inner loop of the
-- Base64 encoder has fuel three for at most 13 bits, the loop of Utf8::length the bytes of the
-- string.
--
-- Not modelled: sockets, the wait of the event loop, fork and signals, TLS (SSLConnection.cpp)
-- and logging, which are calls of the system or of OpenSSL, and Scheduler, Server and Client,
-- which hand them on; Remote, SoaProxy, EasyP2P, DataStructure/Trie.cpp, Utf16 and Json and the
-- older http_proxy, which no modelled part uses; the scripts in PHP and the drawing programs
-- outside mixin_handler.
pub mod Base
pub mod Reader
pub mod StateMachine
pub mod Session
pub mod Soa
pub mod Http
pub mod WebSocket
pub mod Base64
pub mod Utf8
pub mod Tunnel
pub mod Socks
pub mod Sessions
pub mod Events
pub mod Redis
pub mod Utils
pub mod Gateway
pub mod Pool
pub mod SoaClient
