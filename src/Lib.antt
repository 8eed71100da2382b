-- ===== src/Lib.antt =====
-- Goichi, a web framework on fasthttp: its applications, its router, its route groups, its proxies, its
-- protocol servers and some of its middleware.
--
-- A router keeps the routes as they are declared. The first request, or Build, compiles them into one
-- radix tree for each method, with the middleware around each handler; a request then walks the tree
-- of its method. The proxy is middleware that picks one of a pool of targets for a request, and a
-- health check marks the targets that answer.
--
--   Prelude     names of the libraries, tests on numbers, lists, Go strings as bytes, signed settings.
--   Tree        node.go: a node is `Node`; `insert` and `search` have the source's names. The loop of
--               insert runs on fuel, one more than the length of the path: each round consumes a byte
--               or more of it. Termination is about that fuel. Spec says which paths a pattern accepts
--               and what a tree offers for a path; Prefix, Grows, Insertion, Shape and Matching prove
--               how the operations relate to it, Literal what a pattern without parameters finds, and
--               Laws collects that.
--   Http        core/types.go: the context of a request, handlers and middleware. The request context
--               of fasthttp and the JSON encoder are the interface `FastHttp`. A func is an Option, for
--               it may be nil, and a call returns or panics. Responses reads a request and answers it,
--               with utils/conv.go.
--   Router      router.go and route.go: the declared table, with one function for each method of
--               Router; a *RouteInfo is its index in Routes. Route has the methods of a Route, Static
--               the routes that Static and EnableDocs declare, Paths matchPath, Compile build and
--               buildFallbacks, Dispatch HandleRequest, where `decide` says what to run and `perform`
--               runs it. Table, Coverage and Methods prove what a built router finds, and Auth what
--               authentication guards.
--   Group       group.go, with the router that the groups share passed on.
--   Proxy       proxy/balancer.go in Balancer, proxy/health.go in Health and proxy/proxy.go in
--               Setup and Forward, proxy/websocket.go in Upgrade, with the counts of active connections in
--               Upgrade/Settled, proxy/tcp.go in Tcp; Headers has the header rules of proxy/proxy.go. A
--               *Target is its index in the pool. The client, the hooks and the random numbers are the
--               interfaces `Upstream` and `Network`. The loop of Do is recursion on the attempts left,
--               that of pick on its turns, one more than there are targets.
--   Middleware  middleware/ratelimit.go in RateLimit. Each reading of the clock is an argument;
--               middleware/cors.go in Cors and middleware/cache.go in Cache, over the
--               interface `Exchange`.
--               middleware/recover.go and security_headers.go in Recover,
--               bodylimit.go and compress.go in Body, requestid.go in RequestId, and
--               middleware/jwt.go in Jwt, over the JWT library `JwtLibrary`: Guard proves what the
--               middleware lets through, Tokens what becomes of a signed token.
--               Observing has favicon.go, metrics.go, logger.go, timeout.go and the two files for gRPC.
--   Validation  core/types.go: the rules that read or bound a value, and Pagination. Reflect is a struct
--               as reflection shows it, with the fields of embedded structs inside; Rules has Validate and
--               Binding has Bind and setField. Rules/Meaning says what a valid struct is without the code,
--               Rules/Complaints that Validate accepts those; Binding/Texts and Binding/Success
--               prove when Bind succeeds, and what the fields hold then.
--   Protocol    protocol/base.go: the settings that the servers share. Settings has those of each server,
--               Mcp protocol/mcp/server.go, Mqtt protocol/mqtt/broker.go and WebSocket
--               protocol/websocket/server.go. The life of an MCP session is a step relation
--               in Mcp/Sessions; WebSocket/Origin and Admission say which requests are upgraded, Mqtt/Subscriptions what
--               the broker promises about handlers, and Mqtt/Refinement relates the broker to it.
--               Grpc is protocol/grpc/server.go, Connect connect_server.go beside it and GraphQl
--               protocol/graphql/server.go, each over its library as an interface; their Guard modules
--               prove who gets through, Connect/Restart what a second start serves.
--               Registry has the registry of protocol/base.go, where a handler is data and its Start and
--               Stop are the interface `Life`.
--   OpenApi     openapi/generator.go: the document as GenerateSchema writes it, over the interface
--               `Reflection`; Grouping proves how it groups the routes. Models has the walk over a model,
--               over the values as package reflect shows them, which are finite trees; Models/Params
--               fills the interface, and Models/Listing proves which fields the walk lists.
--   App         app.go, protocol.go, protocol_middleware.go and validation.go: `new` and the calls that set
--               an app up; Serving has what it does before it listens and the handler of the listener.
--               Auth proves who has the authentication, Recovery what becomes of a panic.
--               Supervisor has the master of the multiprocess model with startMonitor of app_unix.go, and
--               Listening has Listen and ListenGraceful, as the list of what they do.
--
-- Goroutines are not modelled: an operation that a lock guards is one step, and a theorem on several
-- steps takes their order as a list. Maps of Go are association lists, so the order in which Go would
-- range over one does not occur; the methods of an Allow header are sorted by the code itself.
--
-- Where a result does stand in that order, as the lists of the MCP server do, the model has the order of
-- registration.
--
-- Not modelled: what relays bytes between two connections, text that is only logged, and what only does
-- I/O or calls a library: sockets, signals, processes, the loops over a connection.
pub mod App
pub mod Group
pub mod Http
pub mod Middleware
pub mod OpenApi
pub mod Prelude
pub mod Protocol
pub mod Proxy
pub mod Router
pub mod Tree
pub mod Validation
