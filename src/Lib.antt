-- ===== src/Lib.antt =====
-- mylittleproxy exposes web servers that stand behind a firewall. A server program (server/, with
-- package tunnel) listens on a public address; client programs (client/) keep a control connection
-- to it, over which the server asks for a stream for each public request. This library models the
-- server's tables and handlers, the client with its loop and its proxies, how the two meet, and the
-- programs around them.
--
-- The parts and their files:
--
-- Base: names that all modules share; strings as lists of bytes (Base/Strings), Go's maps as
-- association lists (Base/Dicts), lists (Base/Lists), results with an error (Base/Results) and the
-- tests on numbers (Base/Tests).
-- Std: what the source uses of Go's packages strings (Std/Text), net and strconv (Std/Net) and path
-- (Std/Path), and of net/http and net/textproto (Std/Http), for ASCII text.
-- Proto: proto/proto.go and proto/control_msg.go. AppConfig: appConfig/server.go and
-- appConfig/client.go.
-- Tunnel/VirtualHosts: tunnel/virtualhost.go, `add_host` for AddHost, `get_host` for GetHost and so
-- on; its children prove the look-ups (Find), AddHost and DeleteHost (AddHost), and that the order
-- of a range loop over a map does not matter (Order).
-- Tunnel/Controls: tunnel/control.go. Control objects are shared, so they live on a heap and a
-- pointer is an index into it; Controls/Heap has the laws.
-- Tunnel/Callbacks: callbacks of tunnel/util.go. Tunnel/ClientState and Tunnel/ControlRequest: the
-- states, their change events and the control request of tunnel/client.go; ClientState/Names has
-- tunnel/clientstate_string.go. Tunnel/Errors: the errors of the package.
-- Tunnel/Client: the record Client of tunnel/client.go with its configuration and small methods. Its
-- children are Connect (connect and listenControl), Run (the loop of Start and the calls of Close, as
-- a step relation) with proofs in Run/Sound and Run/Reachable (what always holds), Run/Moves and
-- Run/Events (the reported changes), Run/Closing and Run/Returning (what Close brings about) and
-- Run/Recovery (how it connects again), and Leaks (what a failing connect leaves open).
-- Tunnel/Meeting: connect against controlHandler. Tunnel/Serving: handleHTTP against
-- HTTPProxy.Proxy.
-- Tunnel/Headers: tunnel/customheaders.go, with proofs in Headers/Laws and Headers/Tokens.
-- Tunnel/Proxies: tunnel/proxy.go, with tunnel/httpproxy.go (Http) and tunnel/wsproxy.go (Ws); proofs in Target (the
-- address of the local server) and Settle (what becomes of requests and connections). Join is
-- joinStreams as the steps of its two goroutines.
-- Tunnel/Server: the record Server of tunnel/server.go with its session, control, callback and state
-- operations. Its children are Handshake (controlHandler, listenControl), Connect (checkConnect),
-- Dial (dial), Exchange (handleWSConn and the forwarding part of handleHTTP) and Public (handleHTTP,
-- rewriteRequest, PublicHandler, ControlHandler, ServeHTTP). The proofs are in Invariant, Steps,
-- PublicSteps and Reach (what holds while handlers run one at a time), Admission (which requests are
-- let in), Release (what a dropped client leaves), Outcomes, Conclude and Sequels (how a control
-- request ends), Routing (which client a public request goes to), Unreachable (hosts that none goes
-- to) and Isolation (what a public request leaves alone). Streams is how several calls of dial share
-- a session, as steps, with a proof in Swap. Threads cuts the goroutines of control requests and
-- listeners at every call that takes a mutex, and Threads/System interleaves them; its proofs are in
-- Branches and Alone (a goroutine by itself against the handler), Ends (no deadlock), Careful and
-- Others (what other clients keep), Orderly (what holds however they interleave), and Schedules and
-- Races (what goroutines can do to one another).
-- ServerMain: package server: the settings for NewServer, server/listeners.go (Listeners, Program),
-- server/clientconfig.go (ClientConfig, Program), server/envconfig.go (Environment) and main of
-- server/server.go (Program), with proofs in Loading, Allowed, Agreement, Split, Startup and
-- Generated.
-- ClientMain: client/client.go, with main in Program. Tunnel/ConfigFile: GetConfig of tunnel/util.go.
--
-- How the code corresponds to the model: a method that holds a mutex from start to end is one
-- function from state to state. What the network, yamux, the JSON codec or a callback does comes in
-- as a value with one outcome for each call (HandshakeIo, DialIo, PublicIo, OpenIo, GreetIo,
-- FetchIo, ProxyIo, WsIo), and what is done to the outside is appended to the list `effects` of the
-- state. A handler of the server is one function over all of its calls and runs as one step of Step
-- in Reach, which has a constructor for each handler, for the start and the end of a goroutine that
-- listens on a control, and for each exported method that changes state. What holds of the states
-- that Reach reaches is so for handlers that run one at a time, network calls included. The program
-- holds no mutex over a handler, so they can overlap, and then it need not hold (Threads/Races).
-- Threads has checkConnect, controlHandler and listenControl, and Streams the calls of dial. In
-- Threads, deleteSession is two steps, since the hosts have a mutex of their own, and a goroutine in
-- the second holds sessionsMu: System keeps those that need it waiting. Calls of the network are
-- taken to return. A Go error is a value of Error, an early return a branch. Loops are structural
-- recursion, so no fuel is used; `advances` of Threads takes a given number of steps. Regular
-- expressions (Tunnel/Regexp), the signature `sign` and the decoder and encoder of the connection
-- config are parameters.
--
-- In the client, `Pc` is where the goroutine of Start stands. A step runs from one point where
-- another goroutine can make a difference to the next: the closed flag, the session and the counter
-- of requests are shared with calls of Close and with the goroutines that proxy requests, and Step
-- interleaves all of them in any order. The 10 seconds that Close waits for requests may end at any
-- time, and going away is part of the step that begins Close. Start is called by one goroutine at a
-- time. A backoff is the duration that it gives, and url.Parse is a parameter of the proxies.
--
-- In the programs, the environment, the contents of a file, the host name and the codecs of the
-- settings are parameters or values, and main is a function to an outcome: an exit, or what is then
-- run. `async` of tunnel/util.go is the goroutine that it starts, in Streams and in the late stream
-- of Tunnel/Client/Connect. yamux hands streams over in the order in which they were opened.
--
-- Not modelled: HMAC and base64, which stand behind the parameter `sign`; logging, the parsing of
-- flags, and what net/http does with a listener; races between the calls of a public request, other
-- than those of dial among themselves, and with an exported method inside a handler; text outside
-- ASCII; a callback that calls back into the server; expBackoff, which wraps a library's backoff in
-- a mutex, and controlURL of tunnel/util.go.
pub mod Base
pub mod Std
pub mod Proto
pub mod AppConfig
pub mod Tunnel
pub mod ServerMain
pub mod ClientMain
