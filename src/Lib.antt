-- ===== src/Lib.antt =====
-- A model of pangaea, which keeps the credential files of several machines in step: agents report
-- their file over a WebSocket, the server picks the best file of each account as its truth and
-- pushes it to the machines that lack it.
--
-- Prelude: what the modules share: tests on numbers, lists, Go's maps as association lists in some
-- order of iteration, sorted texts, options and results.
-- Formats (pkg/formats): the contract of a credential format, and the formats claudecreds,
-- geminioauth and codexauth in Formats/Claude, Gemini and Codex. Formats/Clock is time.Time, Text
-- and Jwt are the parsing of texts and tokens. JSON, base64 and SHA-256 are parameters; a live
-- check is not modelled.
-- Strings: what is taken from Go's package strings beyond Formats/Text.
-- Transport (internal/transport/proto.go): the records that travel. Transport/Codec
-- (internal/transport/codec.go): Marshal and Unmarshal, over a JSON of envelopes, with no theorem:
-- what is read back is what encoding/json gives.
-- Config (internal/config): Config/Paths is expand.go with filepath.Clean and os.Expand,
-- Config/Profiles is profiles.go, Config/Store the profile store of store.go as steps of reloads,
-- subscriptions and receives, Config/ServerFile is server.go, Config/ClientFile is client.go. The
-- YAML decoder and time.ParseDuration are parameters.
-- JwtAuth (internal/jwtauth): Issue, Verify and the file of the secret. golang-jwt is the record
-- Library, and Laws says what it documents.
-- Notifier (internal/notifier/notifier.go): the record of a notification. Notifier/Reports: New,
-- Emit, probe, runOnce and Run, whose result is the list of calls of the sinks. Notifier/Telling,
-- Notifier/Pushing and Notifier/Delivery: proofs on the records of the mediators and the hub.
-- Server/Hub (internal/server/hub.go): registration of sessions, their end, snapshot requests and
-- shutdown. Server/Dispatch (internal/server/session.go): what a session forwards to the mediator.
-- HubEffect and Outcome stand for what these do to connections.
-- Server/Handshake (internal/server/auth.go, internal/pki/peer.go): the proof of an identity;
-- Server/Handshake/Serving (internal/server/router.go): handleWS up to the welcome;
-- Server/Handshake/Configured: newAuthenticator.
-- Client/Apply (internal/client/apply.go): applyTruth and writeOne over a disk that maps paths to
-- bytes; Io holds the results of the system calls, error texts are cut to their kind. Its retry
-- loop has common.LockRetryMax as its fuel, as in the code. Client/Reporting
-- (internal/client/agent.go): reportEvent and handleEnvelope. Client/Reconnect
-- (internal/client/conn.go): the waits of reconnectLoop, in words of 64 bits, with a draw of
-- rand.Int63n for every round. Client/Tokens (internal/client/jwt.go and the first messages of
-- session in agent.go): the token and how it is sent. Client/Refresh (internal/client/refresh.go):
-- which files ask for a refresh and the cooldown of the attempts.
-- Server/Mediator (internal/server/mediator.go): the actor of a profile. State has its records,
-- Select the choice of a truth, Push pushTruth, Reselect reselect and updateMirror, Events
-- onReport, onAbsent, onAck and run. The other modules there are proofs.
-- Examples: concrete inputs for the theorems.
--
-- A run of the mediator is a list of events, each with the world that it meets: the clock at the
-- event and at the turn of each account, the sessions that the hub holds at that turn, and which
-- sends succeed. Sends and notifications are effects in the result. A panic is none. Every loop of
-- the mediator is over a list, so nothing in it runs on fuel. Logging is left out. Timeouts of a
-- handshake are reads that bring nothing.
--
-- Not modelled: the agent's event buffer, the dial itself, the start of the server, certificates
-- and SSH tunnels, the rendering and delivery of notifications, the watcher and the command line,
-- which are mostly I/O around libraries; live checks, usage probes and redaction of the formats;
-- and the batches of session events in the notifier, which nothing calls.
mod Prelude
pub mod Formats
pub mod Strings
pub mod JwtAuth
pub mod Transport
pub mod Config
pub mod Notifier
pub mod Server
pub mod Client
mod Examples
