-- ===== src/Lib.antt =====
-- Sandpolis: the core of its network and database layers, of the ownership of data, of liveness, of
-- background services, of users and their logins, and of the accounts that it keeps track of.
--
-- A network of instances (agents, clients and servers) exchanges messages over streams. Each
-- connection has a registry of its streams, and a server's registries share a relay, which forwards
-- what is addressed to another instance: to a live connection, along an advertised route, or to
-- the upstream server. Every instance keeps its data in a database of one realm. Caches of rows
-- follow the database through its watcher, and rows are replicated between servers as records. A
-- row belongs to one instance or to the whole estate. The global server grants each instance's data
-- to the server that the instance is attached to; a local server writes an instance's data only
-- while its scope table says that it owns the scope, and it comes to own a scope by fetching a
-- snapshot (hydrating) after a grant. A server also records who is up: of every instance that attaches
-- to it, whether it is connected or, when it polls, due. Every instance hosts background services,
-- whose desired and actual state are rows too.
--
-- A realm's users are declared by a config that is brought into its database. A user logs in with
-- a password, and where the realm wants it a code, for a signed token; a client that connects with
-- the token may open the streams that the user's present permissions allow, which a gate decides for
-- every message of an unknown stream. Realms also keep accounts at other sites, with links between
-- those that share an email address or a user name.
--
-- The files, and the code that they model:
--
--   Prelude: shared names, and its children: Tests (Boolean tests on native numbers), Lists, Maps,
--     Results (errors and the bind of options) and Bits (bit operations as arithmetic).
--   Network.Message, Network.Relay, Network.Registry: sandpolis-instance/src/network/stream.rs.
--     `route` and `next_hop` are the relay's methods, `dispatch`, `register_to` and `close` the
--     registry's. A channel is a number, a weak handle is an address that a heap may lead to a
--     connection from, and what is sent or delivered is returned in order.
--   Network.Liveness: `reachable` of sandpolis-instance/src/network/liveness.rs.
--   Database.Scope, Database.Revision, Database.Resident, Database.Resident.Vec:
--     sandpolis-instance/src/database/mod.rs. `may_write`, `update_inner`, `push_inner`,
--     `remove_inner` and `handle_event` keep their names. Locks make each call one step.
--   Database.Sync: sandpolis-instance/src/database/sync.rs. The closures of `register_inner` are
--     `decode_and_apply` and `snapshot_type`.
--   Server.Hydration: `OwnershipRequester` of sandpolis-server/src/ownership.rs: `on_message`, and
--     `hydrate` with its task, which ends by `complete` or `abandon`.
--   Server.Ownership: `Ownership` of the same file: `claim`, `owned_by`, the mirror, `restore`, and the
--     loop of `maintain_local_claims` (Server.Ownership.Local) and `OwnershipResponder` with its watcher
--     (Server.Ownership.Watcher).
--   Server.Pulls: `maintain_agent_sync` of the same file, a turn of its loop at a time.
--   Server.Liveness: sandpolis-server/src/liveness.rs. `reconcile` with `mark_online`, `overdue` and
--     `mark_offline` over cached rows, `next_checkin`, and the loop of `maintain_liveness` (`turns`).
--     Database.Resident.Vec.Search is what a cache searched by content needs.
--   Instance.Service: sandpolis-instance/src/service. `update` is the read-modify-write of a service's
--     row; Instance.Service.Supervisor has `set_enabled`, `start` and `stop` a step at a time, and the
--     supervising tasks as steps, which calls and one another may overlap.
--   Server.User: sandpolis-server/src/user: the manager's reads. Server.User.Passwords has the rows of
--     passwords (`password`, `new_password`, `add_totp`), Server.User.Connect the handler `connect`
--     with its gate, Server.User.Configured `sync_users`. Server.User.Login is `post_login` of
--     sandpolis-server/src/login/server.rs, whose answer is the response, or none where the code
--     panics, and the rows that it leaves.
--   Account: sandpolis-account/src/lib.rs and management.rs: `derive_links`, `recompute_links`,
--     `create`, `delete` and `handle`.
--   Instance.Id, Instance.Permission, Instance.Version: sandpolis-instance/src/lib.rs.
--   Examples: every theorem at a concrete input.
--
-- The files below a component state and prove what its results need; each is named for that.
--
-- Bounds and fuel. Identifiers, tags and counters keep their wrap-around (2^64 and 2^32), instance
-- ids their 128 bits and hop counts their 8. Revisions and epochs are natural numbers: they are
-- counted up from 1. The loop of `reachable` runs on fuel, one unit for each row and one more: a
-- pass that grows the set adds the subject of a row that was missing, so there are at most as
-- many growing passes as rows, and the resolution is proved to return.
--
-- Parameters. native_db is an interface of a transaction's effect (`Access`, and `commits` of
-- `Env`), with the behaviour of a committed upsert as a named hypothesis where it is used;
-- native_model is the interface's encoding, with decoding as its inverse. The generator of uuids
-- and of random numbers are arguments. The crates cron and chrono are `Chrono`: the next tick of a
-- schedule, and sums of times that are refused out of range. argon2, totp_rs and jsonwebtoken are
-- functions of a login's surroundings (`LoginEnv`) and the decoding argument of `connect`; that the hash
-- verifies what it derived is a hypothesis where it is used.
--
-- Not modelled: sockets, tasks and channels but for the steps that they take, the encoding of
-- stream messages, the text of notifications, the registry of a process's services and the text of
-- their schedules, the making of a realm's signing keys and of an accepted peer's socket and rows, the
-- seeding of accounts and their files, the graphical and terminal clients, the desktop layer and the layers that
-- collect data on hosts.
pub mod Prelude
pub mod Network
pub mod Database
pub mod Instance
pub mod Server
pub mod Account
pub mod Examples
