-- ===== src/Lib.antt =====
-- jocasta: a proxy in Go. This library models the parts of it that carry its own logic.
--
-- The parts, and how they meet. A service of the proxy (services/) accepts connections. To choose where
-- to send one it asks a balancer (core/loadbalance), which keeps a pool of backends, probes their health
-- and selects one by the method that was configured. To tell for which host a TLS connection is it reads
-- the server name from the ClientHello (connection/sni). Whether a domain is proxied at all is asked of
-- the filter (core/filter). Between its own ends it speaks the frames and datagrams of
-- captain (core/captain); with its clients, those of SOCKS5 (core/socks5) or HTTP (pkg/httpc and
-- pkg/enet). Addresses go through a cached resolver (core/idns), streams through a cipher
-- (connection/shadowsocks), and the sessions of the UDP service (services/udp) and of the nodes behind a
-- bridge (services/mux), which join with the messages of pkg/through, are kept in maps that are swept in
-- intervals (connection/manager.go).
--
-- Files and the code they are about.
-- Prelude: names of the libraries, Boolean tests, lists over native numbers, signed integers with the
--   wrap of int64, bytes as binary digits.
-- Go: what the code uses of Go's standard library: results with panics, slices, readers, addresses and
--   texts; Go/Conn has the connections on which a handshake reads and writes, with the bytes that are
--   still to come, the writes that succeed and the bytes that were written.
-- Captain (core/captain/captain.go), with
--   Captain/DataLen (datalen.go): DataLen and ParseDataLen are data_len and parse_data_len.
--   Captain/Addr (addr.go): ParseAddrSpec is parse_addr_spec.
--   Captain/Stream (stream.go): ParseRequest, Request.Bytes, Request.Header, ParseReply and SendReply are
--     parse_request, request_bytes, request_header, parse_reply and send_reply.
--   Captain/Datagram (datagram.go): NewDatagram, ParseDatagram, Bytes and Header.
--   Captain/StreamDatagram (stream_datagram.go): the same on a stream.
-- LoadBalance (core/loadbalance), with
--   LoadBalance/Upstream (upstream.go): a backend as a record; healthyCheck is healthy_check. A probe is a
--     function of the moment, the address and the timeout.
--   LoadBalance/Pool (upstream.go): UpstreamPool as a list. The code's slice holds pointers to distinct
--     backends, so an update of a backend is an update of its place.
--   LoadBalance/Random, RoundRobin, Least, Hash, Weight (selector.go): the Select of each selector, with
--     its state as an argument and a result, and the drawn random numbers as a function.
--   LoadBalance/Choice, Cycle: what a selection is expected to be, and searches around a pool.
--   LoadBalance/Registry (loadbalance.go, selector.go): RegisterSelector, getNewSelectorFunction and init.
--   LoadBalance/Balanced (loadbalance.go): Balanced and its operations, and its runs as an inductive
--     relation. Select holds the lock for reading only: what overlapping selections leave of the
--     selector is a step of its own there; what such a selection itself returns is not modelled.
-- Sni (connection/sni/sni.go): getServername is get_servername, cut into client_hello, after_random,
--   extensions, extensions_turn and read_name at the places where the code goes on.
-- Filter (core/filter/filter.go): Match is match, with match_loop for its loop; Add, IsProxy, the turn
--   of run for one domain and the loading of the tables are add, is_proxy, liveness_turn and load_lines.
--   The concurrent map is an interface. Texts are cut at dots by split and put together by join.
-- Socks5 (core/socks5/structs.go), with
--   Socks5/Packet: PacketUDP and UDPPacket; Parse, Build, Header, Bytes and ParseUDPPacket are parse,
--     build, packet_header, packet_bytes and parse_udp_packet.
--   Socks5/Methods: NewMethodsRequest, cut into methods_request and new_methods_request.
--   Socks5/Request: NewRequest and NewReply are new_request and new_reply.
--   Socks5/Auth, Socks5/Server (server.go): Handshake is handshake, cut into the phases of the methods,
--     the authentication, the request and the command.
--   Socks5/Client (client.go): Handshake and handshake are client_handshake and negotiate.
--   Socks5/Meets: the client and the server on the two ends of one connection.
-- Through (pkg/through): the two requests of a node, over the frames of captain.
-- Mux/Bridge (services/mux/bridge.go): the sessions of the nodes as places in a store; handler is handler up
--   to its loop over streams, whose end is server_ends, and a turn of the retries in proxyStream is attempt.
--   A node joins in one step. Mux/Bridge/Runs has the interleavings as an inductive relation of steps, in
--   which every turn of the ticker's loop is a step of its own; Mux/Bridge/Swept is about a turn
--   right behind a node that joins.
-- Mux/Node (services/mux/server.go, client.go): GetConn is get_conn; join is the negotiation of a node of
--   either kind, and Mux/Node/Meets has a node and its bridge on the two ends of a connection.
-- Mux/Route (services/mux/server.go): the route that inspectConfig reads is parse_route.
-- Mux/Streams (the same files): dialThroughRemote, with the request from the route, and what a client node
--   makes of a stream.
-- Enet (pkg/enet/enet.go): RemoveProxyHeaders is remove_proxy_headers, with lines_loop and headers_loop.
-- Httpc (pkg/httpc/httpc.go): New, cut into method_and_target, basic_auth and finish; getHeader and
--   getHTTPRawURL are get_header and http_raw_url.
-- Tcp (services/tcp/tcp.go): proxyStream2UDP; items and streams are places in a store.
-- Http (services/http/http.go): handle, with serve for what is behind httpc.New; IsDeadLoop and isUseProxy
--   are is_dead_loop and is_use_proxy.
-- Idns (core/idns/idns.go): Resolve, MustResolve and joinIPPort. Items are replaced in the cache, where the
--   code changes them in place.
-- Connection/Manager (connection/manager.go): Watch is watch, over the moments of its ticker; one tick is
--   sweep, where no other part of the program comes in between, and one turn of its loop is visit, which the
--   relations of steps take one by one. Connection/Manager/Entries fills the interface of the map.
-- Udp (services/udp/udp.go): items are places in a store, since the table and the goroutines hold pointers
--   to them. Udp/Runs has the interleavings as an inductive relation of steps, in which the ticker's loop
--   closes a session in one step and removes its key in another.
-- Shadowsocks (connection/shadowsocks/request.go): ParseRequest and ParseAddrSpec, with
--   Shadowsocks/Cipher (encrypt.go): NewCipher, Encrypt and Decrypt.
--   Shadowsocks/Stream (conn.go): Read and Write are read_conn and write_conn.
-- BasicAuth (core/basicAuth/basicAuth.go): Add, LoadFromFile, Has, Verify and VerifyFromLocal are add,
--   load_from_file, has, verify and verify_from_local.
--
-- Bounds and fuel. Counters of 32 and 64 bits wrap as they do in Go. Go's int is an integer; where the
-- code subtracts weights it wraps at 64 bits. The loop over the extensions of a ClientHello runs on fuel,
-- the length of the message, which is shown to be enough; the decimal digits of a port on twenty digits,
-- more than a uint64 has; proxyStream has ten retries, so eleven turns; all other loops are structural. A
-- slice is as long as its capacity.
--
-- Parameters. What is not in the repository is a parameter: Gcdx of extmath, SplitHostPort of extnet, the
-- concurrent map of the filter and of the users, the remote authority, the probe that dials, the
-- resolver, the parsing and printing of IP addresses of the standard library, the stream ciphers with the
-- laws of a stream and of a pair of streams, the DNS client, base64 and url.Parse, protobuf, smux, the tests
-- for domains and intranet addresses, the addresses of the system, the listener for UDP and whether a parent
-- can be dialed.
--
-- Not modelled: the other services, the transports, the wrappers of connections, logging, the command line
-- and generated code, which are mostly input and output or calls of other libraries; deadlines and
-- the closing of connections, except where a session or a refusal is about it. Strings are lists of bytes.
-- Letters are lowered and raised as ASCII.
pub mod BasicAuth
pub mod Captain
pub mod Connection
pub mod Enet
pub mod Filter
pub mod Go
pub mod Http
pub mod Httpc
pub mod Idns
pub mod LoadBalance
pub mod Mux
pub mod Prelude
pub mod Shadowsocks
pub mod Sni
pub mod Socks5
pub mod Tcp
pub mod Through
pub mod Udp
