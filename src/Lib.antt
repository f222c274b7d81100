-- ===== src/Lib.antt =====
-- httpadapter carries http requests and websockets over channels that are multiplexed on one tcp
-- connection, the tcp chain. A connection begins with a handshake of two hello messages, in which
-- the ends tell each other their window. Then each end runs a transport: it reads commands off the
-- connection and gives data to the pipe of the channel that the command names, and writes the
-- commands that its channels make. A channel sends no more than the window of the other end until
-- its reader confirms.
--
-- The library is a shallow embedding of the Go sources. Numbers are natural numbers, with the
-- wrap-around of uint64 written out where the code can meet it; bytes are numbers, strings lists of
-- bytes. An error is a value of a sum or result type; a panic of a slice expression is a value too.
--
-- Common              lists, options, bytes in big endian, io.ReadFull on a list of bytes, Go maps
--                     with integer keys, strings with commas
-- Core                core/protocol.go, core/version.go, core/hello.go: the constants, `ClientHello`
--                     and `ServerHello` with Read, verify, Marshal and MarshalTo
-- Pipe.ReadWriter     pipe/read_writer.go: the ring buffer; `contents` is its abstract value
-- Pipe.PipeReader     pipe/pipe_reader.go: the ring behind a mutex and a condition; `System` runs
--                     any number of readers, writers and a `Close` in any interleaving of their
--                     critical sections
-- Pipe.Copying        pipe/io.go: `Copy`, from one connection to another; what the reads return and how
--                     the writes end are arguments
-- Channel             channel.go: the send loop with its window, the confirmations, the deadlines;
--                     what the select statements choose is an argument
-- Transport           base_transport.go, and what both transports share: the channel as a transport
--                     sees it, the frames, the loop over the data of a write command
-- Transport.Writing   base_transport.go: `serveWrite`, which merges what the channels send, with the
--                     buffered writer as it is documented, and `servePing`
-- ServerTransport     server_transport.go: the map of channels and each command; if the queue of the
--                     writer has room for a close frame is an argument
-- Server              server.go and http.go: the greeting, the accept loop, the connection that is
--                     handed to the http server
-- ClientTransport     client_transport.go: the client's part of the handshake
-- ClientTransport.Dispatch
--                     client_transport.go: `Create`, `createResult` and the loop of `Serve` with each
--                     command; what the other goroutines do between two commands, and if the
--                     queue of the writer has room, are arguments
-- Pool                client.go: the loop that makes, hands out and closes the transports of a client;
--                     which event comes next is an argument
-- Flow                channel.go and pipe/pipe_reader.go: both ends of one direction of a channel and
--                     what is between them, as steps in any order
-- Calls               core/message.go: the metadata and the head of a message
-- Calls.Client        client_unary.go: `Unary`; the json and url packages are parameters, how the
--                     channel fares is an argument
-- Calls.Tunnel        client_tcp.go, client_websocket.go and internal/pipe/io.go: `Connect` and
--                     `Websocket`
-- Calls.Handler       server_handler.go: `Serve`, the opening of a tunnel and `unary`; the backend, the
--                     hook and the dialler's success are parameters
-- Relay               server_handler.go: `readWS` and `writeWS`, between a channel and the websocket
--                     of a backend, and the loops of `websocket` that call them; what the websocket
--                     refuses, after the messages that it got, is a parameter
-- Websocket           websocket.go: the frames of a message that is written to a channel
-- Websocket.Reader    websocket.go: `NextReader`, the reader and `ReadMessage`, on the bytes that arrive
--                     before the channel ends and for any sizes of the reads
-- Options             server_options.go, client_options.go: the defaults and what each option sets
-- Command.Rewriter    cmd/httpadapter/server.go: the matchers and the rules that rewrite or reject a url;
--                     `Served` runs the handler of Calls.Handler with them. Regular expressions, and
--                     what is the hostname or the port of a host, are parameters
-- Command.Settings    cmd/httpadapter/server.go: the options that a configuration gives to the server
-- Command.Tunnels     cmd/httpadapter/tunnel.go: the tunnels and which of them share a client
--
-- Fuel: the loops of the ring's `read`, of the data of a write command, of a websocket message that
-- is written or relayed, and of the two transports' `serve` run on fuel. Each round takes a byte at
-- least, so one more than the number of bytes is enough. The reader of a websocket message takes two
-- reads at most for each byte of its input, and a message that is relayed takes four bytes at least.
--
-- Not modelled: what an http client does with a request, timers other than the deadline of a write and
-- the timer of the ping, the reuse of buffers, when the ends of a call close its channel; and of the
-- command line program the flags, the listeners, the logging, the web page and the commands that try a
-- server out.
pub mod Common
pub mod Pipe
pub mod Core
pub mod Server
pub mod ClientTransport
pub mod Calls
pub mod Channel
pub mod Transport
pub mod ServerTransport
pub mod Flow
pub mod Options
pub mod Websocket
pub mod Relay
pub mod Command
pub mod Pool
