-- ===== src/Lib.antt =====
-- Aastro, an API gateway: a request is matched to a flow, sent to the flow's upstreams, and answered
-- with one upstream's response or with the responses of all of them combined.
--
-- The parts and their files (paths from the repository's root):
-- - Breaker: internal/circuitbreaker/circuitbreaker.go, the circuit breaker of one upstream. `allow`,
--   `on_failure` and `on_success` are Allow, OnFailure and OnSuccess, with the time as an argument.
--   Breaker/Trip is about opening, Breaker/HalfOpen about the trials.
-- - UpstreamError: upstream_error.go, the kinds of error and the table of what each means for retries,
--   the breaker, the policy and the client.
-- - Upstream: upstream.go and policy.go. Upstream/Balance is selectHost; Upstream/Attempt is doCall with
--   readBody, filterHeaders and the classification of what comes back; Upstream/Retry is callWithRetry;
--   Upstream/Call is call with updateCircuitBreaker and applyPolicy.
-- - Forwarding: upstream.go, the headers of a request to an upstream (resolveHeaders), with its query in
--   Forwarding/Queries (resolveQueries) and the whole of it in Forwarding/Target (newRequest).
-- - Flow and Aggregator: flow.go and aggregator.go. Aggregator has the error lists, the shared status and
--   the headers; Aggregator/Merge is "merge" with the conflict policies; Aggregator/Strategies is "array",
--   "namespace" and the choice of a strategy.
-- - Response: response.go, the problem documents.
-- - Router: router.go. Router has the reply of a flow from the responses on; Router/Handler has the handler
--   of a flow with its plugins, dispatch and the rate limit (Handler/Outcomes that a request is
--   answered, Handler/Budget what a client can cost); Router/ClientIp is extractClientIP, and
--   Router/Fingerprint has the identifiers of a request.
-- - Scatter: scatter.go, the calls of all the upstreams of a flow for one request.
-- - Streaming: streaming.go and proxy of upstream.go, a flow that streams; Streaming/Copy is streamCopy,
--   Streaming/Serve what the client gets.
-- - Plugins: builtin/plugins, with Plugins/Masker, Plugins/Camelify and Plugins/Snakeify for masker, camelify
--   and snakeify, and Plugins/Rename for what the last two share (transformKeys);
--   Plugins/Gateway has masker as a plugin of a flow, in the handler of Router/Handler.
-- - Middlewares: builtin/middlewares. Middlewares/Auth is auth, with Auth/Keys for the key resolvers and
--   Auth/Setup for Init; Middlewares/Cors, Middlewares/Compressor and Middlewares/Recoverer are the others.
-- - Config: config.go, the configuration of flows with its checks; Config/Params is extractPathParams.
-- - Builder: builder.go, flows and upstreams from the configuration; Builder/Names has the names of strategies
--   and policies (with flow.go), Builder/Loader is loader.go.
-- - OpenApi: internal/openapi. The extension x-aastro keeps a flow in a document: OpenApi/Export has
--   flowExtension, OpenApi/Import reconstructFlow, OpenApi/Defaults the defaults that loading sets.
--   OpenApi/Scaffold makes a flow of an operation without it; OpenApi/FromConfig (with Export/Operations and
--   Export/Responses) is the whole export and OpenApi/ToConfig the whole import of an OpenApi/Document.
-- - RateLimit: internal/ratelimit/ratelimit.go, the limit on the requests of one client.
-- - Prelude and Header: what the parts share, with Go's maps and http.Header.
-- - Examples, and Aggregator/Merge/Examples: the theorems at concrete inputs.
-- How they interact: Router.Handler.handle reads the body and calls Scatter, which calls Upstream.Call.call
-- of every upstream; that asks and informs the upstream's Breaker around the attempts, and classifies what
-- comes back by UpstreamError; the responses go to the reply directly, or through Aggregator. Around the
-- handler of a flow stand its middlewares, in the order of Middlewares.chain; what a flow is made of comes
-- from Builder.compile_flow, whose upstreams are those that Upstream calls.
--
-- State is passed explicitly: a method that changes its receiver returns the new record, and a mutex is the
-- fact that such a step is one function. The world outside is an argument: an `Exchange` is all that one
-- attempt meets (the context, the time, what client.Do gives, the body as a stream with its read error), and
-- a call has one for each attempt. Errors are values: `none` is an error or a panic where the comment of a
-- definition says so. `sent` in HttpUpstream is for the proofs alone.
--
-- Numbers: int, int64 and time are natural numbers where the code keeps them so, and `ℤ` where a sign
-- matters (maxRetries, preferredUpstream, differences of wall-clock times). The counter of the round robin
-- is a uint64 with its wrap written out; the counters of the breaker and the rate limit are bounded by
-- theorems. The retry loop is recursion on the rounds left, so that no fuel is needed, and the other loops
-- are recursion on lists; only the decimal digits of a length have fuel, one unit more than the number.
--
-- Parameters: the JSON codec (github.com/goccy/go-json) with the law that a decoded object has each key
-- once; the encoder of problem documents; package net (addresses and networks); the operations on float64,
-- with laws of their rounding (RateLimit/Rounding) where a theorem says so; and the plugins, each of which
-- leaves a context, fails or panics.
--
-- Of what the middlewares call, golang-jwt is a parameter in two halves, around its call of KeyFunc, and so
-- are jwk.Fetch by what it gives, gzip and flate, base64, PEM, X.509 and strconv.Quote. Of the plugins'
-- JSON codec nothing is assumed. The loading of shared objects and of certificates is a parameter of Builder.
--
-- The canonical form of a header's name, the port of an address, Atoi and go-chi's URL parameters are
-- parameters of Forwarding. Package time's texts of durations are one of OpenApi, with the law that a duration is
-- read back from its text; SHA-256 and the parsed query are of Router/Fingerprint.
--
-- Simplifications: the order of a loop over a Go map is that of the dictionary (in filterHeaders from the
-- last entry on); the text of an error leaves out the numbers that it is formatted with. In the plugins a
-- text is its bytes, and ToLower and ToUpper change ASCII letters alone; in the middlewares and the builder
-- they are those of ASCII text.
--
-- Not modelled: the interleaving of goroutines (the calls of a scatter are taken one after the other, and each
-- request alone); the use of a request's content in a call (an exchange says what it meets); reading YAML,
-- defaults other than those of an upstream, and the validator's tags; HTTP transports and TLS; the
-- background refresh of the JWKS and Close; the routes of go-chi; the middleware "logger"; the servers, the commands, logging, metrics
-- other than the upstream's own, and tracing, which are I/O and calls of libraries.
pub mod Prelude
pub mod Header
pub mod Breaker
pub mod UpstreamError
pub mod Upstream
pub mod Flow
pub mod Aggregator
pub mod Response
pub mod OpenApi
pub mod RateLimit
pub mod Router
pub mod Forwarding
pub mod Scatter
pub mod Plugins
pub mod Middlewares
pub mod Config
pub mod Builder
pub mod Streaming
pub mod Examples
