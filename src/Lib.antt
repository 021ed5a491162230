-- ===== src/Lib.antt =====
-- A verification library for gomcp, a Go implementation of the Model Context Protocol.
--
-- The program is a client and a server that exchange JSON-RPC messages over one of several
-- transports. Modelled here are the UDP transport (transport/udp), the one that implements its own
-- protocol of datagrams with fragmentation, acknowledgments and retransmission, and the progress
-- notifications of the server (mcp/progress.go, server/progress.go), the negotiation of protocol
-- versions (mcp/version.go), what the server keeps of requests and sessions
-- (server/cancellation.go, server/session.go), and its handling of messages with the state behind it:
-- initialization, registration, subscriptions, its own requests to the client and their limits; its
-- events, the client's side, and the embedded transport.
--
-- Files and code:
--   Prelude      shared names, tests, lists and finite maps over the native numbers. A Go map is an
--                association list with distinct keys; no theorem depends on its order, except where
--                it says "in the order of the map".
--   Udp.Crc      crc32.ChecksumIEEE of Go's standard library, bit by bit.
--   Udp.Header   PacketHeader, encodeHeader, decodeHeader (transport/udp/udp.go).
--   Udp.Reliability  the ReliabilityManager (transport/udp/reliability.go). Every operation takes
--                the manager (State) and the time and returns the new one, with the packets that it
--                hands to the connection where it sends any. Its children prove what
--                acknowledgments do (Acks), how often and how late a message is sent again
--                (Retries), what timeouts queue (Timeouts), and an invariant (Invariant) of every
--                history of operations (History).
--   Udp.Transport  the Transport record, its options and NewTransport (transport/udp/udp.go).
--   Udp.Lifecycle  Initialize, Start and Stop, with the lock runningMu explicit.
--   Udp.Send     Send, sendSinglePacket and sendFragmentedMessage.
--   Udp.Receive  processPacket, handleFragment, reassembleMessage, cleanExpiredFragments and one
--                round of each receiving loop.
--   Udp.Transfer  sending on one side followed by receiving on the other.
--   Udp.Faults   behaviour of the reliable mode that the comments of the code do not promise.
--
--   Progress.Notifications, Progress.Tokens, Progress.Channel  the types of mcp/progress.go.
--   Progress.RateLimiter  ProgressRateLimiter of server/progress.go; its window (Rates) and its
--                buffer (Buffers).
--   Progress.Server, Progress.Sending  the methods of serverImpl in server/progress.go. The wire is
--                the list of what the transport took. Order, Direct, Calls, Managing and History prove the
--                order of progress on it.
--   Progress.Reporter  ProgressReporter (mcp/progress.go) with the token manager that it shares;
--                Reports and Ascending are about what it sends.
--   Progress.Subscriptions, Progress.Validity, Progress.Faults  what the channel, the validation and
--                the rate limit do.
--   Versions     mcp/version.go: VersionDetector, NormalizeVersion and the functions on them. Its
--                children prove negotiation and validation (Negotiation) and the recursion of
--                NormalizeVersion (Normalization); Texts has the equality of strings.
--   Requests.Cancellation  RequestCanceller (server/cancellation.go), its channels as numbers.
--   Requests.Sessions  SessionManager (server/session.go). Requests.Overwriting proves what happens
--                when a key is used twice.
--   Serving      the server's side of the protocol. Json has decoded values and the fields of structs;
--                Request and Dispatch are NewContext (server/context.go), handleMessage, batches and
--                single messages (server/message.go), Handlers the subscriptions, the logging level
--                and cancellations, Initialize and Roots the request initialize and the roots
--                (server/server.go, server/protocol.go, server/root.go). State has the fields of
--                serverImpl, Cache the capability cache and Registry the registration of tools,
--                resources and prompts. Tracker is the requestTracker (server/sampling.go), Limits
--                the SamplingController (server/sampling_config.go), Sampling and Requesting a
--                sampling request with its retries, Lists the pages of the lists. Answers, Frames,
--                Histories, Tracking, Subscriptions, Limiting, Retrying, Paging and Missing are
--                about them.
--   Events       the event system (events/events.go): Caching and Replaying are about its cache and
--                what a new subscriber gets of it.
--   Clients      the client: Listing has the loops over the pages of a list (client/client.go), put
--                together with the server's pages of Serving.Lists; Roots the manager of roots
--                (client/roots.go); Lifecycle Connect, initialize, Close and the connection before a
--                request (client/lifecycle.go, client/protocol.go), Connections its histories and
--                Closing what a Close leaves.
--   Embedded     the pair of in-process transports (transport/embedded/embedded.go) with the channels
--                that they share; Balance is about histories of the pair.
--
-- Numbers: a byte, a uint16 or a uint32 is a natural number, reduced modulo its range where the
-- code converts or wraps. Times and durations are natural numbers of nanoseconds. A Go int with a
-- sign that matters is a ℤ of Prelude.Results. A finite float64 is a whole multiple of 2^-1074, and
-- only its order is used. There is no fuel: every loop is a recursion over a
-- list, over the rounds or over the retries that are left. The client's loop over pages has no bound in
-- the code and takes a number of rounds here; one more than there are entries is enough.
--
-- Parameters: the network (whether a deadline can be set and a write succeeds), the socket calls of
-- Initialize and Stop, the answers of the transport and of the listeners, random digits, the lower
-- case of a code point, the time of each operation; for messages the decoding of bytes to JSON values,
-- Go's formatting of values, filepath.Clean, url.PathUnescape, the detector of versions, and the results
-- of the handlers of calls and lists; for the reporter of progress and for sampling the arithmetic on
-- float64, for sampling what comes of each attempt, and for the client what the transport and the
-- server answer in each call, which may depend on whether its context is cancelled.
--
-- Not modelled: mutexes other than runningMu, since each operation is one critical section; pauses;
-- log messages; the texts of errors; the rest of the program, whose parts the manifest lists.
pub mod Prelude
pub mod Udp
pub mod Progress
pub mod Versions
pub mod Requests
pub mod Serving
pub mod Events
pub mod Clients
pub mod Embedded
