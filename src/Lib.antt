-- ===== src/Lib.antt =====
-- A verification library for a-simple-rpc: a wire protocol, a client that balances calls over
-- several servers, and a server that calls registered methods by name.
--
-- Parts of the program and the files that model them. Paths are from the repository's root.
--
-- protocol/message.go. Protocol.Header has the 12 header bytes and the functions of `Header`,
-- under the Go names in snake case; Protocol.Header.Fields is the view of a header as its fields.
-- Protocol.Metadata has `encodeMetadata` and `decodeMetadata`. Protocol.Message has `Message`,
-- `NewMessage`, `Clone`, `Encode`, `Decode` and `Read`. A byte is a number and a text is the list
-- of its bytes. `Decode` is a computation over the message and the reader; the reader is the
-- bytes still to come and the error that follows them, and `io.ReadFull` is written out over it.
-- A slice out of range is the outcome `panic`, and `recover` is what the deferred function makes
-- of it.
--
-- client/selector.go, client/mode.go and the pairs of client/discovery.go are Client.Selector.
-- client/xclient.go is Client.XClient: the state of `xClient` with its cache of connections, and
-- `Go` and `Call` with its fail modes. Connections are numbered in the order in which they are
-- made. What the network does is an argument, the record `World`: the random draws, the dials,
-- the result of a call on a connection, whether a connection is down, and what singleflight
-- joins; each question gets the number of questions before it, so that the answers may change
-- over time. Client.XClient.Broadcast is `Broadcast`, with its goroutines and its waiting loop as
-- a step relation.
--
-- server/plugin.go and error/multi_error.go are Server.Plugin. A plugin is the record of the
-- methods that the type assertions of `pluginContainer` would find, over a state S of all
-- plugins. server/pool.go is Server.Pool: a pool of values for each type, where an argument
-- decides what a `sync.Pool` hands out. Server.Handler is the request path of server/server.go
-- (`processOneRequest`, `handleRequest`, `handleError`, `getService`) and of server/service.go
-- (`call`). The codecs and the registered Go methods are arguments, the record `Backend`.
-- Server.Conn is the loop of `serveConn`, as the list of what it starts and writes.
-- Server.Registry is the registration of services (`register`, `Register`, `RegisterName`,
-- `suitableRPCMethods`, `checkValidMethod`, `UnregisterAll`) over what reflection says of a
-- method. Share has the table of share/share.go that says which codecs there are.
--
-- Server.Lifecycle is the listener and the open connections (`Serve`, `serveListener`,
-- `closeConn`, `Close`, `closeDoneChanLocked`, where `serveConn` begins and ends), with the table
-- of server/listener.go and `startGateway`; Server.Lifecycle.Steps has the goroutines of a server
-- as a step relation, in which the store of a connection and its `go`, and the two halves of
-- `closeConn`, are steps of their own. Server.Converter is server/converter.go, and
-- Server.Gateway the rest of server/gateway.go: each function is what follows one call that can
-- fail, up to the next, and Server.Gateway.Traces the trace of these calls. Server.Consul is
-- server_plugin/consul.go over an agent that is an argument. Log is log/default_logger.go and
-- log/logger.go.
--
-- client/discovery.go and its three implementations are Client.Discovery;
-- Client.Discovery.Interface has the interface with its laws, and `NewXClient` as its client,
-- with the discovery at each of its two calls. In Client.Discovery.Delivery the handler of
-- updates, the goroutines it starts and the watchers are a step relation, and
-- Client.Discovery.Stale follows the channel into `watch` of client/xclient.go.
--
-- client/client.go is Client.Call (the objects `Call` and its channel, the message for a call,
-- what a response does to a call) and Client.Connection (`Client`: `Go`, `send`, the rounds and
-- the end of `input`, the cancellation in `Call`, `Close`). Calls and channels lie at addresses.
-- A function is what one goroutine does when no other runs in between; `send` is the composition
-- of its two parts. In Client.Connection.Goroutines the goroutines are steps: one stretch of code
-- under the mutex, or one write to a call or to its channel behind an `Unlock`, where a goroutine
-- holds a call that is out of the map and not completed yet. Client.Connection.Interleaving lets
-- the steps follow one another in any order. Client.Connection.Input is the loop of `input` over
-- a whole stream, Client.Connection.Calling is `Call` with its `select`, Client.Heartbeat the
-- rounds of `heartbeat`. Client.Connecting is `Connect` with client/connection.go and
-- client/option.go. The sequence number wraps at 2 ^ 64. Exchange joins a connection and the
-- server's handler; in Exchange.Matching several responses come in any order, and the loop over
-- them stops at an error; in Exchange.Round both ends use Codecs, which is codec/codec.go with
-- the table of share/share.go, over the protobuf libraries and encoding/json as a record of
-- arguments.
--
-- gen/main.go is Gen: what each of its functions prints, over protogen as an argument.
--
-- How the parts meet. A client encodes a message and the server reads it: Protocol.Message. The
-- server handles it over the services and the pools and encodes its response:
-- Server.Handler.Delivery joins the handler and the reader. An xclient call selects a server,
-- gets a connection and calls on it.
--
-- Bounds and fuel. Lengths on the wire are 32-bit numbers and are reduced mod 2 ^ 32 (`u32`). The
-- loop of `decodeMetadata` runs on fuel, the length of its input, of which each round consumes at
-- least eight bytes. The loop of retries recurses on the number of rounds that the Go counter
-- allows. The loops of a connection, `serveConn` and `input`, run on one unit of fuel more than
-- the stream has bytes, of which each round takes some. `stuck` is the outcome of a loop that is
-- out of fuel.
--
-- Step relations have no fuel: their theorems speak of every state that is reached. A channel of
-- updates holds ten lists, as in the source.
--
-- Not modelled: the serialization libraries, the multiplexer and the router in front of the
-- gateway and the watch plan of consul, which are libraries and answer as arguments of the model;
-- the timeouts and settings of connections; the number of running handlers, which nothing reads;
-- and the tests with their generated code.
pub mod Prelude
pub mod Outcome
pub mod Protocol
pub mod Share
pub mod Client
pub mod Server
pub mod Log
pub mod Codecs
pub mod Exchange
pub mod Gen
pub mod Tests
