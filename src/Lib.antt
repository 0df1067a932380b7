-- ===== src/Lib.antt =====
-- ComplyTime Core: evidence of compliance is taken in by a gateway, sealed by a locker into one
-- transparency log for each subject, and loaded into a graph. The gateway authenticates a caller by
-- its token, asks the trust store whether the caller may publish for a subject, wraps the artifact as
-- a receipt and puts it on the ingest stream; the locker's worker takes it from there.
--
-- The files, and the code that they model:
--   Subjects          internal/subjects/validate.go (ValidateSubjectID), on Regex
--   Nats              internal/nats/subjects.go, and the TTL of internal/nats/streams.go
--   Nats/KeyValue     what the services rely on of a NATS key-value bucket; Memory is a bucket that
--                     meets it
--   Trust             internal/trust/store.go: the operations of TrustStore, state passed along
--   Authz             internal/authz: Actions (routes), Context, Policies (policies/base.cedar and
--                     LoadEmbeddedPolicies), Middleware
--   Authn             internal/authn: Claims, Oidc, Registry; Publisher is internal/authn/publisher
--   Locker            internal/locker: Ledgers (ledger.go), the table of ledgers (locker.go), Worker,
--                     Admin, Handler (with tileserver.go); Requests is the worker and the admin
--                     subscriber of cmd/locker/main.go on the same ledgers; Sound is an invariant
--   Gateway           internal/gateway: Schemas (validate.go), Ingest (handler.go), Admin, and the
--                     subject middleware; Server is the routes of cmd/gateway/main.go
--   Receipts          internal/gateway/receipt, on Base64
--   Events            events/events.go
--   Graph             internal/graph: Store (the graph that the queries keep), Writer (writer.go),
--                     Parser, Loader, and Evidence, the paged list of writer.go and handler.go;
--                     Memory is a graph that meets what the writer relies on
--   Base64, Decimal   encoding/base64 and strconv of Go
--   Errors, Json      Go's errors, chains of steps that may fail, and decoded JSON
--   Prelude, Examples what the other files share, and one instance for each theorem
--
-- A function that returns (T, error) returns a Result, one that changes state also the new state.
-- Numbers are natural numbers: times are nanoseconds (in the graph, an instant and a location), log indices the 64 bits of a uint64, which the
-- code converts to int64 without a change below 2^63. A table that is a Go map is a list of pairs with
-- distinct keys; the order of a map is not used. Each recursion is on a list or on a count that the
-- code has before the loop begins: waitForIntegration runs over the passes that there are before its
-- timeout. Only the client that follows the cursor of the evidence list has fuel, a number of requests;
-- the largest log index and two more are enough.
--
-- Code of other projects is a parameter, with what its documentation promises: the key-value buckets
-- (a write that fails may have been applied), the Cedar engine (some permit and no forbid), the JWT
-- library (an accepted token is the one of its text, from the required issuer, within its times give
-- or take the skew), Tessera (a log only grows, and an index is that of its entry), JSON decoding,
-- SHA-256, canonical JSON and protojson (both keep the value), and Memgraph: a query is a transaction,
-- which on success did what its Cypher says and on failure did that or nothing; the rows of an answer
-- are those that match, sorted by the ORDER BY clause and cut at the LIMIT. How it compares the
-- LocalDateTime that evidence is stored with and a time.Time with its zone is a parameter too. The gateway's ingest takes
-- the wrapping of a receipt, and the locker's worker and the loader each other's messages, as
-- parameters. The clocks of the services and of NATS are taken as one.
-- Requests are handled one at a time, those of the locker's worker and of its admin subscriber in any
-- order; two writers of a trust list are a sequence of reads and writes.
--
-- Not modelled: start-up, shutdown and the configuration, generated code, the queries of the graph that
-- count or assemble (ThreatModel, SubjectSummary, ListSubjects, Coverage), the publishing of events, log
-- messages, and the texts of some errors, which no code reads.
mod Prelude
pub mod Decimal
pub mod Errors
pub mod Events
pub mod Receipts
pub mod Regex
pub mod Subjects
pub mod Nats
mod Examples
pub mod Gateway
pub mod Graph
pub mod Json
pub mod Trust
pub mod Authz
pub mod Base64
pub mod Authn
pub mod Locker
