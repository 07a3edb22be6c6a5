-- ===== src/Lib.antt =====
-- A verification library of autopush-rs, the push server of a web browser.
--
-- A user agent holds a WebSocket to an autoconnect node. Once it has said hello it is identified, and a
-- `WebPushClient` serves it: messages from the agent, and notifications that autoendpoint routes to the
-- node, come in one at a time, and each changes the client's state, calls the database and gives messages
-- to send. What cannot be delivered is stored; the client reads it back in batches, waits for the acks,
-- and goes on. The node's broadcasts are tracked beside, with a change count that lets a client ask for
-- what is new. Rows come from Bigtable as a stream of chunks, which a state machine puts together.
--
-- The parts, their files, and the code that they model:
--   Prelude         strings as byte lists with their order and UTF-8 validity, `HashMap` as an association
--                   list, machine words with their wrap-around, Boolean tests
--   Notification    autopush-common/src/notification.rs
--   Protocol        autoconnect/autoconnect-common/src/protocol.rs, and the error kinds of
--                   autoconnect-ws-sm/src/error.rs and autopush-common/src/errors.rs
--   Services        the interface to what the client uses: `DbClient` of autopush-common/src/db/client.rs,
--                   clocks, `AppState`, and the crates url, uuid, base64, openssl, fernet
--                   and reqwest. A `World` stands for all of their state; every call may change it.
--   Endpoint        autopush-common/src/endpoint.rs
--   Broadcast       autoconnect/autoconnect-common/src/broadcast.rs: `Registry` and `Tracker` are the two
--                   types with their methods; `Revisions`, `Invariant`, `Load` and `Delta` the proofs
--   Client          autoconnect/autoconnect-ws/autoconnect-ws-sm/src/identified: the state (mod.rs), the
--                   monad of its methods, `Storage` (on_server_notif.rs), `Messages` (on_client_msg.rs),
--                   and `Run`, the select loop of autoconnect-ws/src/handler.rs as a list of inputs.
--                   `Frame`, `Direct` and `Delivery` follow the direct notifications; `Loop` and `Drain`
--                   the loop that reads storage; `Shutdown` is the end of a session, with `shutdown` of mod.rs.
--                   `Hello` is autoconnect-ws-sm/src/unidentified.rs, which makes a client, and `Greeting`
--                   what that leads to.
--   Merge           autopush-common/src/db/bigtable/bigtable_client: the types of merge.rs, cell.rs and
--                   row.rs; `Chunks` has one function for each state's method and the loops over chunks
--                   and responses, `Steps`, `Rows`, `Settled` and `Cells` the proofs
--   Records         autopush-common/src/db/mod.rs and models.rs: the key and the record that a notification
--                   is stored under; `Keys` and `Stored` are the round trips
--   Users           the making of a `User`, of db/mod.rs and db/util.rs
--   Db              the `DbClient` trait of autopush-common/src/db/client.rs as a record of calls
--   Bigtable        autopush-common/src/db/bigtable/bigtable_client/mod.rs: requests and filters, `Bytes` and
--                   `Cells` (row.rs) the values, `Messages`, `Users`, `Store`, `Channels` and `Pending` the
--                   operations; their round trips stand below, `Ranges` is about the row keys that are read
--   Dual            autopush-common/src/db/dual/mod.rs: two databases as one, and the move of users
--   Autoendpoint    autoendpoint/src: the notification of an application server, over a service with its
--                   database, nodes and crates; `MessageId` (extractors/message_id.rs), `Router`
--                   (routers/webpush.rs, routes/webpush.rs) and `Users` (extractors/user.rs) the operations,
--                   `Headers` (headers), `Encryption` (extractors/notification_headers.rs) and `Subscription`
--                   (extractors/subscription.rs, token_info.rs) what is taken from a request; `Delivery`,
--                   `Subscribed`, `Deletion`, `Authorized` and `Accepted` the proofs; `Posting`
--                   puts a notification together from a request
--   Ping            autoconnect/autoconnect-ws/src/ping.rs: the timer of a session; `Timeout` is when it
--                   drops the client
--   Clients         autoconnect/autoconnect-common/src/registry.rs, over the channels of the futures crate
--                   as an interface with laws: which session is registered, and what a new connection does
--                   to the old one
--   Tests           concrete inputs, and a database in memory that satisfies `IsDrainable`
--
-- A call of a database gives a result or a `DbError`, and the world after it. A method of `WebPushClient` is a function from a session (client and world) to an `Outcome`: a result, an
-- error, or no end within the rounds given, each with the session as the method leaves it. A method of
-- `BroadcastChangeTracker` and of `RowMerger` takes the old state and returns the new one.
--
-- Only `check_storage_loop` takes fuel, one unit for each round. It is enough to give two more than the
-- messages that are left to read: against a database to which nobody else writes (`Client.Drain.IsDrainable`)
-- each round that goes on deletes an expired topic message or moves the pointer of timestamp messages.
--
-- Not modelled: metrics, logs, Sentry and the parsed User-Agent, which have no effect on the protocol; JSON
-- and sockets; the gRPC client, the pool and the retries of Bigtable, and DynamoDB; of autoendpoint the
-- extractors and routes of registrations and the bridges to FCM, APNS and ADM; the older server in autopush.
-- The clock is read once for each chunk of a stream. Texts of errors go without the values that they quote.
pub mod Prelude
pub mod Notification
pub mod Broadcast
pub mod Protocol
pub mod Records
pub mod Services
pub mod Endpoint
pub mod Users
pub mod Client
pub mod Merge
pub mod Clients
pub mod Db
pub mod Bigtable
pub mod Dual
pub mod Autoendpoint
pub mod Ping
mod Tests
